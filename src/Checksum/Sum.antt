-- ===== src/Checksum/Sum.antt =====
-- The word sum of `ip_checksum_partial` against the 16-bit sum of RFC 1071.
use qo_smos.Prelude.{ℕ, ◌+◌, ◌*◌, ◌^◌, ◌≤◌, ◌<◌, ◌≡◌, List, [], ◌∷◌, arith, ◌∙◌, length}
use qo_smos.Prelude.Words.{u32_mod, u64_mod}
use native.Mathlib.Nat.{zero-add}
use qo_smos.Checksum.{le16, le32, add64, ip_checksum_partial, ipv4_checksum, ip_checksum_fold}
use qo_smos.Checksum.Fold.{complement16, ip_checksum_fold_lem}

-- Every element is a byte.
abbrev pub IsBytes : List ℕ → Type 0
IsBytes [] = Unit {0}
IsBytes (b ∷ bs) = (b < 2 ^ 8) × IsBytes bs

-- The sum of the 16-bit words, an odd last byte padded by a zero, with no carry lost.
unfoldable pub words16 : List ℕ → ℕ
words16 [] = 0
words16 (a ∷ []) = a
words16 (a ∷ b ∷ p) = le16 a b + words16 p

-- The sum of the upper halves of the 32-bit words.
pub uppers : List ℕ → ℕ
uppers (a ∷ b ∷ c ∷ d ∷ p) = le16 c d + uppers p
uppers _ = 0

-- The sum is exact while no carry can leave 64 bits.
pub partial_lem :
    (p : List ℕ) (sum : ℕ)
    → IsBytes p
    → sum + u32_mod * length p < u64_mod
    → (ip_checksum_partial p sum ≡ sum + words16 p + 65535 * uppers p)
      × (ip_checksum_partial p sum ≤ sum + u32_mod * length p)
unfolding ip_checksum_partial words16 uppers
partial_lem [] sum bytes room = omega arith
partial_lem (a ∷ []) sum bytes room = omega arith
partial_lem (a ∷ b ∷ []) sum bytes room = omega arith
partial_lem (a ∷ b ∷ c ∷ []) sum bytes room = omega arith
partial_lem (a ∷ b ∷ c ∷ d ∷ p) sum bytes room =
    let no_carry : add64 sum (le32 a b c d) ≡ sum + le32 a b c d = omega arith in
    rw no_carry (omega (arith, partial_lem p (sum + le32 a b c d) bytes.1.1.1.1 (omega arith)))

uppers-le : (p : List ℕ) → uppers p ≤ words16 p
unfolding words16 uppers
uppers-le (a ∷ b ∷ c ∷ d ∷ p) = omega (arith, uppers-le p)
uppers-le [] = omega arith
uppers-le (a ∷ []) = omega arith
uppers-le (a ∷ b ∷ []) = omega arith
uppers-le (a ∷ b ∷ c ∷ []) = omega arith

complement16-add : (w u : ℕ) → u ≤ w → complement16 (w + 65535 * u) ≡ complement16 w
complement16-add w u h = ground arith

-- The fold of a sum over a buffer, started from any sum.
pub fold-partial :
    (p : List ℕ) (sum : ℕ)
    → IsBytes p
    → sum + u32_mod * length p < u64_mod
    → ip_checksum_fold (ip_checksum_partial p sum) ≡ complement16 (sum + words16 p)
fold-partial p sum bytes room =
    let (exact, bound) = partial_lem p sum bytes room in
    rw (ip_checksum_fold_lem (ip_checksum_partial p sum) (omega (arith, bound)), exact)
      (complement16-add (sum + words16 p) (uppers p) (omega (arith, uppers-le p)))

-- For every header of fewer than 2 ^ 32 bytes, summing 32-bit words into a `u64` and folding gives
-- the checksum of RFC 1071: the one's complement of the one's complement sum of the 16-bit words.
pub ipv4_checksum-eq-rfc1071 :
    (header : List ℕ)
    → IsBytes header
    → length header < u32_mod
    → ipv4_checksum header ≡ complement16 (words16 header)
unfolding ipv4_checksum
ipv4_checksum-eq-rfc1071 header bytes short =
    fold-partial header 0 bytes (omega arith) ∙ rw zero-add
