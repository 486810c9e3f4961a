-- ===== src/Address/Prefix.antt =====
-- What is left of an address in a normalized prefix.
use qo_smos.Prelude.{
  ℕ, zero, suc, ◌+◌, ◌-◌, ◌*◌, ◌/◌, ◌%◌, ◌^◌, ◌≤◌, ◌<◌, ◌≡◌, refl, ap, ◌∙◌, sym, some, List, [],
  ◌∷◌, ◌++◌, arith, length, take, set, get_or, replicate, ltb, ◌==◌, if◌then◌else◌, Bool-cases, inl,
  inr, two_pow_pos, two_pow_add, length-replicate, ==_iff, ltb→lt,
}
use native.Mathlib.Nat.{
  add_comm, mul_comm, mul_assoc, add-mul, add-mul-div_right, div-div-eq-div-mul, div-eq_of_lt,
  mul-le-mul_right,
}
use mathlib.Core.Path.{subst}
use qo_smos.Address.{
  ip_address_length, IpAddress, IpPrefix, ip_to_prefix, ip_prefix_normalize, normalized,
  normalized_at, clear_low, zero_rest,
}

abbrev pub AreBytes : List ℕ → Type 0
AreBytes [] = Unit
AreBytes (b ∷ bs) = (b < 256) × AreBytes bs

-- The number of an address in network order.
abbrev pub number : List ℕ → ℕ
number [] = 0
number (b ∷ bs) = b * 2 ^ (8 * length bs) + number bs

-- The first `len` bits and zeros behind them, byte by byte.
abbrev keep : List ℕ → ℕ → List ℕ
keep [] len = []
keep (b ∷ bs) len =
    let rest = keep bs (len - 8) in
    if ltb len 8 then clear_low (8 - len) b ∷ replicate (length bs) 0 else b ∷ rest

rest_behind :
    (b : ℕ) (bs : List ℕ) (k m : ℕ) → zero_rest (b ∷ bs) (suc k) (suc m) ≡ b ∷ zero_rest bs k m
rest_behind b bs k m =
    let one_less : suc m - suc k ≡ m - k = omega arith in
    ap (λ n. b ∷ (take k bs ++ replicate n 0)) one_less

-- From 8 bits on the first byte is kept.
behind_first_byte :
    (b : ℕ) (bs : List ℕ) (m k r : ℕ)
    → normalized_at (b ∷ bs) (suc m) (suc k) r ≡ b ∷ normalized_at bs m k r
unfolding normalized_at
behind_first_byte b bs m k r = elim (Bool-cases (r == 0)) [
  | inl whole ↦ rw whole (rest_behind b bs k m)
  | inr part ↦
      let step : suc k + 1 ≡ suc (k + 1) = omega arith in
      rw (part, step) (rest_behind b (set bs k (clear_low (8 - r) (get_or bs k 0))) (k + 1) m)
]

none_kept : (b r : ℕ) → b < 256 → r ≡ 0 → 0 ≡ clear_low (8 - r) b
none_kept b r byte e = rw e (omega arith)

from_zero : (m : ℕ) → suc m - 0 ≡ suc m
from_zero m = omega arith

one_byte : 0 + 1 ≡ 1
one_byte = omega arith

ends_at : (m : ℕ) → suc m - 1 ≡ m
ends_at m = omega arith

-- Below 8 bits the prefix ends in the first byte.
in_first_byte :
    (b : ℕ) (bs : List ℕ) (m r : ℕ)
    → b < 256
    → r < 8
    → normalized_at (b ∷ bs) (suc m) 0 r ≡ clear_low (8 - r) b ∷ replicate m 0
unfolding normalized_at
in_first_byte b bs m r byte small = elim (Bool-cases (r == 0)) [
  | inl whole ↦
      let cleared : 0 ≡ clear_low (8 - r) b = none_kept b r byte ((==_iff r 0).0 whole) in
      rw (whole, from_zero m) (ap (λ c. c ∷ replicate m 0) cleared)
  | inr part ↦ rw (part, one_byte, ends_at m) refl
]

normalized-keep :
    (ip : List ℕ) (len : ℕ)
    → AreBytes ip
    → len ≤ 8 * length ip
    → normalized ip (length ip) len ≡ keep ip len
unfolding normalized
normalized-keep [] len bytes h = let no_bits : len ≡ 0 = omega arith in rw no_bits refl
normalized-keep (b ∷ bs) len (byte, bytes) h = elim (Bool-cases (ltb len 8)) [
  | inl small ↦
      let start : len / 8 ≡ 0 = omega (arith, ltb→lt len 8 small) in
      let bits : len % 8 ≡ len = omega (arith, ltb→lt len 8 small) in
      rw (small, start, bits) (in_first_byte b bs (length bs) len byte (ltb→lt len 8 small))
  | inr large ↦
      let start : len / 8 ≡ suc ((len - 8) / 8) = ground arith in
      let bits : len % 8 ≡ (len - 8) % 8 = ground arith in
      rw (large, start, bits)
        (behind_first_byte b bs (length bs) ((len - 8) / 8) ((len - 8) % 8)
          ∙ ap (λ l. b ∷ l) (normalized-keep bs (len - 8) bytes (ground arith)))
]

number_zeros : (m : ℕ) → number (replicate m 0) ≡ 0
number_zeros zero = refl
number_zeros (suc m) = omega (arith, number_zeros m)

-- The weight of the byte before these.
first_weight : (bs : List ℕ) → 2 ^ (8 * suc (length bs)) ≡ 256 * 2 ^ (8 * length bs)
first_weight bs =
    let split : 8 * suc (length bs) ≡ 8 + 8 * length bs = omega arith in
    rw split (two_pow_add 8 (8 * length bs))

below : (b : ℕ) → b < 256 → b ≤ 255
below b h = omega arith

number_bound : (bs : List ℕ) → AreBytes bs → number bs < 2 ^ (8 * length bs)
number_bound [] bytes = omega arith
number_bound (b ∷ bs) (byte, bytes) = omega (
  arith,
  first_weight bs,
  number_bound bs bytes,
  mul-le-mul_right (2 ^ (8 * length bs)) (below b byte),
)

-- Clearing in the first byte, with `size` for the weight of that byte and `step` for its cleared part.
clear_first :
    (b n size step : ℕ)
    → n < size
    → 0 < size
    → b / step * step * size ≡ (b * size + n) / (step * size) * (step * size)
clear_first b n size step small some_size =
    let whole : (b * size + n) / size ≡ b =
      ap (λ x. x / size) (add_comm (b * size) n)
      ∙ add-mul-div_right n b some_size
      ∙ omega (arith, div-eq_of_lt small) in
    let split : (b * size + n) / (step * size) ≡ b / step =
      ap (λ x. (b * size + n) / x) (mul_comm step size)
      ∙ sym (div-div-eq-div-mul (b * size + n) size step)
      ∙ ap (λ x. x / step) whole in
    mul_assoc (b / step) step size ∙ ap (λ x. x * (step * size)) (sym split)

-- Clearing behind the first byte, whose weight the cleared part divides.
clear_behind :
    (b n quotient step : ℕ)
    → 0 < step
    → b * (quotient * step) + n / step * step ≡ (b * (quotient * step) + n) / step * step
clear_behind b n quotient step some_step =
    let flat = mul_assoc b quotient step in
    let split : (b * (quotient * step) + n) / step ≡ n / step + b * quotient =
      ap (λ x. x / step) (add_comm (b * (quotient * step)) n ∙ ap (λ x. n + x) (sym flat))
      ∙ add-mul-div_right n (b * quotient) some_step in
    rw split (omega (arith, add-mul (n / step) (b * quotient) step, flat))

with_weight :
    (size quotient step b n : ℕ)
    → size ≡ quotient * step
    → 0 < step
    → b * size + n / step * step ≡ (b * size + n) / step * step
with_weight size quotient step b n e some_step = rw e (clear_behind b n quotient step some_step)

length-keep : (ip : List ℕ) (len : ℕ) → length (keep ip len) ≡ length ip
length-keep [] len = refl
length-keep (b ∷ bs) len = elim (Bool-cases (ltb len 8)) [
  | inl small ↦ rw small (ap suc (length-replicate (length bs) 0))
  | inr large ↦ rw large (ap suc (length-keep bs (len - 8)))
]

keep-number :
    (ip : List ℕ) (len : ℕ)
    → AreBytes ip
    → len ≤ 8 * length ip
    → number (keep ip len) ≡ number ip / 2 ^ (8 * length ip - len) * 2 ^ (8 * length ip - len)
keep-number [] len bytes h = let no_bits : len ≡ 0 = omega arith in rw no_bits refl
keep-number (b ∷ bs) len (byte, bytes) h = elim (Bool-cases (ltb len 8)) [
  | inl small ↦
      let split : 8 * suc (length bs) - len ≡ 8 - len + 8 * length bs =
        omega (arith, ltb→lt len 8 small) in
      let cleared =
        clear_first b (number bs) (2 ^ (8 * length bs)) (2 ^ (8 - len)) (number_bound bs bytes)
          (two_pow_pos (8 * length bs)) in
      rw
        (
          small,
          split,
          two_pow_add (8 - len) (8 * length bs),
          number_zeros (length bs),
          length-replicate {A = ℕ} (length bs) 0,
        )
        (omega (arith, cleared))
  | inr large ↦
      let split : 8 * suc (length bs) - len ≡ 8 * length bs - (len - 8) = ground arith in
      let whole : 8 * length bs ≡ len - 8 + (8 * length bs - (len - 8)) = ground arith in
      let weight : 2 ^ (8 * length bs) ≡ 2 ^ (len - 8) * 2 ^ (8 * length bs - (len - 8)) =
        ap (λ n. 2 ^ n) whole ∙ two_pow_add (len - 8) (8 * length bs - (len - 8)) in
      let rest = keep-number bs (len - 8) bytes (ground arith) in
      rw (large, split, length-keep bs (len - 8), rest)
        (with_weight (2 ^ (8 * length bs)) (2 ^ (len - 8)) (2 ^ (8 * length bs - (len - 8))) b
          (number bs) weight (two_pow_pos (8 * length bs - (len - 8))))
]

normalized-number :
    (ip : List ℕ) (size len : ℕ)
    → AreBytes ip
    → length ip ≡ size
    → len ≤ 8 * size
    → number (normalized ip size len) ≡ number ip / 2 ^ (8 * size - len) * 2 ^ (8 * size - len)
normalized-number ip size len bytes e h =
    subst (λ n. number (normalized ip n len) ≡ number ip / 2 ^ (8 * n - len) * 2 ^ (8 * n - len)) e
      (ap number (normalized-keep ip len bytes (omega (arith, e)))
        ∙ keep-number ip len bytes (omega (arith, e)))

prefix_fields :
    (ip : IpAddress) (len : ℕ) (prefix : IpPrefix)
    → ip_to_prefix ip len ≡ some prefix
    → (len ≤ 8 * ip_address_length ip.family) × (prefix.ip ≡ ip) × (prefix.prefix_len ≡ len)
unfolding ip_to_prefix
prefix_fields ip len prefix h = ground arith

-- Normalizing the prefix that `ip_to_prefix` makes of an address of its family's size and a length in bits keeps those first bits and makes the bits behind them zero: the number of the address is rounded down to a multiple of 2 to the number of the bits behind.
pub ip_prefix_normalize-number :
    (ip : IpAddress) (len : ℕ) (prefix : IpPrefix)
    → AreBytes ip.bytes
    → length ip.bytes ≡ ip_address_length ip.family
    → ip_to_prefix ip len ≡ some prefix
    → number (ip_prefix_normalize prefix).ip.bytes
      ≡ number ip.bytes
        / 2 ^ (8 * ip_address_length ip.family - len)
        * 2 ^ (8 * ip_address_length ip.family - len)
unfolding ip_prefix_normalize
ip_prefix_normalize-number ip len prefix bytes size h =
    let (fits, same, bits) = prefix_fields ip len prefix h in
    rw (same, bits) (normalized-number ip.bytes (ip_address_length ip.family) len bytes size fits)
