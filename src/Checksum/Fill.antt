-- ===== src/Checksum/Fill.antt =====
-- Filling in a checksum field and verifying it.
use qo_smos.Prelude.{
  ℕ, zero, suc, ◌+◌, ◌*◌, ◌/◌, ◌%◌, ◌^◌, ◌<◌, ◌≡◌, refl, List, [], ◌∷◌, arith, length, set, ap, ◌∙◌,
}
use native.Mathlib.Nat.{add_assoc}
use qo_smos.Prelude.Words.{u16_mod, u32_mod, u64_mod}
use qo_smos.Checksum.{ip_checksum_partial, ip_checksum_fold}
use qo_smos.Checksum.Fold.{complement16}
use qo_smos.Checksum.Sum.{IsBytes, words16, fold-partial}

-- A `__be16` field that is assigned a `u16`: its bytes in memory order.
unfoldable pub put16 : List ℕ → ℕ → ℕ → List ℕ
put16 bytes offset v = set (set bytes offset (v % 2 ^ 8)) (offset + 1) (v / 2 ^ 8)

-- The field at byte `2 * i`, by recursion; `put16` computes to it.
put_word : List ℕ → ℕ → ℕ → List ℕ
put_word (a ∷ b ∷ p) zero v = v % 2 ^ 8 ∷ v / 2 ^ 8 ∷ p
put_word (a ∷ b ∷ p) (suc i) v = a ∷ b ∷ put_word p i v
put_word p i v = p

put16-eq-put_word :
    (p : List ℕ) (i v : ℕ) → 2 * i + 1 < length p → put16 p (2 * i) v ≡ put_word p i v
unfolding put16 put_word
put16-eq-put_word [] i v h = absurd (omega arith)
put16-eq-put_word (a ∷ []) i v h = absurd (omega arith)
put16-eq-put_word (a ∷ b ∷ p) zero v h = refl
put16-eq-put_word (a ∷ b ∷ p) (suc i) v h =
    let e : 2 * suc i ≡ suc (suc (2 * i)) = omega arith in
    let e' : suc (suc (2 * i)) + 1 ≡ suc (suc (2 * i + 1)) = omega arith in
    rw (e, e') (ap (λ q. a ∷ b ∷ q) (put16-eq-put_word p i v (omega arith)))

put_word-IsBytes :
    (v : ℕ) → v < u16_mod → (p : List ℕ) (i : ℕ) → IsBytes p → IsBytes (put_word p i v)
unfolding put_word
put_word-IsBytes v small (a ∷ b ∷ p) zero h = (omega arith, (omega arith, h.1.1))
put_word-IsBytes v small (a ∷ b ∷ p) (suc i) h = (h.0, (h.1.0, put_word-IsBytes v small p i h.1.1))
put_word-IsBytes v small (a ∷ []) i h = h
put_word-IsBytes v small [] i h = h

length-put_word : (v : ℕ) (p : List ℕ) (i : ℕ) → length (put_word p i v) ≡ length p
unfolding put_word
length-put_word v (a ∷ b ∷ p) zero = refl
length-put_word v (a ∷ b ∷ p) (suc i) = omega (arith, length-put_word v p i)
length-put_word v (a ∷ []) i = refl
length-put_word v [] i = refl

put_word_twice : (u v : ℕ) (p : List ℕ) (i : ℕ) → put_word (put_word p i u) i v ≡ put_word p i v
unfolding put_word
put_word_twice u v (a ∷ b ∷ p) zero = refl
put_word_twice u v (a ∷ b ∷ p) (suc i) = ap (λ q. a ∷ b ∷ q) (put_word_twice u v p i)
put_word_twice u v (a ∷ []) i = refl
put_word_twice u v [] i = refl

words16-put_word :
    (v : ℕ) (p : List ℕ) (i : ℕ)
    → 2 * i + 1 < length p
    → words16 (put_word p i v) ≡ words16 (put_word p i 0) + v
unfolding put_word words16
words16-put_word v [] i h = absurd (omega arith)
words16-put_word v (a ∷ []) i h = absurd (omega arith)
words16-put_word v (a ∷ b ∷ p) zero h = omega arith
words16-put_word v (a ∷ b ∷ p) (suc i) h = omega (arith, words16-put_word v p i (omega arith))

complement16_self : (s : ℕ) → complement16 (s + complement16 s) ≡ 0
complement16_self s = ground arith

complement16-lt : (s : ℕ) → complement16 s < u16_mod
complement16-lt s = ground arith

-- The segment with its field at `2 * i` zeroed, and with the checksum `c` of that stored there.
abbrev pub zeroed : List ℕ → ℕ → List ℕ
zeroed p i = put16 p (2 * i) 0

abbrev pub filled : List ℕ → ℕ → ℕ → List ℕ
filled p i c = put16 (zeroed p i) (2 * i) c

-- Summed from any start, a segment whose field holds the checksum of the zeroed segment folds to 0.
pub filled-verifies :
    (sum : ℕ) (p : List ℕ) (i : ℕ)
    → IsBytes p
    → 2 * i + 1 < length p
    → sum + u32_mod * length p < u64_mod
    → let c = ip_checksum_fold (ip_checksum_partial (zeroed p i) sum) in
      ip_checksum_fold (ip_checksum_partial (filled p i c) sum) ≡ 0
filled-verifies sum p i bytes inside room =
    let z = put_word p i 0 in
    let z_eq = put16-eq-put_word p i 0 inside in
    let z_bytes = put_word-IsBytes 0 (omega arith) p i bytes in
    let c_eq = fold-partial z sum z_bytes (omega (arith, length-put_word 0 p i)) in
    let s = sum + words16 z in
    let c = complement16 s in
    let f_eq =
      put16-eq-put_word z i c (omega (arith, length-put_word 0 p i)) ∙ put_word_twice 0 c p i in
    rw (z_eq, c_eq, f_eq)
      (rw
        (
          fold-partial (put_word p i c) sum (put_word-IsBytes c (complement16-lt s) p i bytes)
              (omega (arith, length-put_word c p i)),
          words16-put_word c p i inside,
          ← add_assoc sum (words16 z) c,
        )
        (complement16_self s))
