-- ===== src/Building/Icmp/Names.antt =====
-- The names of ICMP types and codes in app/src/main/cpp/icmp_packet.c, and how they are read.
use Prim.Native.Char.{code}
use Prim.Native.String.{String, [] as end_of_text, ◌∷◌ as ◌∷ₛ◌}
use qo_smos.Prelude.{
  ℕ, zero, suc, ◌+◌, ◌-◌, ◌*◌, Bool, true, false, ◌&&◌, ◌||◌, List, [], ◌∷◌, Option, none, some,
  leb, ◌==◌, if◌then◌else◌,
}
use qo_smos.Prelude.Int.{ℤ, pos, negsuc}

-- The bytes of an ASCII text.
unfoldable pub text_bytes : String → List ℕ
text_bytes end_of_text = []
text_bytes (c ∷ₛ s) = code c ∷ text_bytes s

-- `!strcmp`
unfoldable pub is_same_text : List ℕ → List ℕ → Bool
is_same_text [] [] = true
is_same_text [] (y ∷ ys) = false
is_same_text (x ∷ xs) [] = false
is_same_text (x ∷ xs) (y ∷ ys) = (x == y) && is_same_text xs ys

-- What follows a prefix.
unfoldable pub after_prefix : List ℕ → List ℕ → Option (List ℕ)
after_prefix [] s = some s
after_prefix (p ∷ ps) [] = none
after_prefix (p ∷ ps) (c ∷ cs) = let rest = after_prefix ps cs in if p == c then rest else none

abbrev is_blank : ℕ → Bool
is_blank c = (c == 32) || (leb 9 c && leb c 13)

abbrev pub is_digit : ℕ → Bool
is_digit c = leb 48 c && leb c 57

-- The number of the digits in front, behind those with value `n`.
unfoldable pub digits_value : ℕ → List ℕ → ℕ
digits_value n [] = n
digits_value n (c ∷ cs) =
    let value = digits_value (10 * n + (c - 48)) cs in if is_digit c then value else n

-- One digit at least.
unfoldable pub scan_digits : List ℕ → Option ℕ
unfolding digits_value
scan_digits [] = none
scan_digits (c ∷ cs) = if is_digit c then some (digits_value 0 (c ∷ cs)) else none

abbrev negated : ℕ → ℤ
negated zero = pos 0
negated (suc n) = negsuc n

abbrev mapped : (ℕ → ℤ) → Option ℕ → Option ℤ
mapped f none = none
mapped f (some n) = some (f n)

-- `%d` of `sscanf`; the overflow of an int is undefined in C.
unfoldable pub scan_int : List ℕ → Option ℤ
unfolding scan_digits
scan_int [] = none
scan_int (c ∷ cs) =
    let rest = scan_int cs in
    if is_blank c
    then rest
    else if c == b'-'
    then mapped negated (scan_digits cs)
    else if c == b'+'
    then mapped pos (scan_digits cs)
    else mapped pos (scan_digits (c ∷ cs))
