-- ===== src/Prelude/Bits.antt =====
-- The powers of two, and a bound on masked numbers.
use Prim.Native.Nat.{ℕ, zero, suc, ◌+◌, ◌*◌, ◌/◌, ◌^◌, ◌≤◌, min, bit_and, digits, bit_and-bitwise}
use mathlib.Core.Path.{◌≡◌, sym}
use native.Mathlib.Nat.{pow-suc, mul_assoc}
use native.Mathlib.Omega.{arith}

pub two_pow_pos : (k : ℕ) → 1 ≤ 2 ^ k
two_pow_pos zero = omega arith
two_pow_pos (suc k) = omega (arith, pow-suc 2 k, two_pow_pos k)

pub pow_two : (k : ℕ) → 2 ^ suc k ≡ 2 * 2 ^ k
pow_two k = omega (arith, pow-suc 2 k)

pub two_pow_add : (a b : ℕ) → 2 ^ (a + b) ≡ 2 ^ a * 2 ^ b
two_pow_add zero b = let none_more : zero + b ≡ b = omega arith in rw none_more (omega arith)
two_pow_add (suc a) b =
    let one_more : suc a + b ≡ suc (a + b) = omega arith in
    rw (one_more, pow_two (a + b), pow_two a, two_pow_add a b) (sym (mul_assoc 2 (2 ^ a) (2 ^ b)))

-- The digits of an `and` are at most the mask's, however many are looked at.
masked_digits-le : (count x mask : ℕ) → digits (λ m. 0) min count x mask ≤ mask
masked_digits-le zero x mask = omega arith
masked_digits-le (suc count) zero mask = omega arith
masked_digits-le (suc count) (suc x) mask =
    omega (arith, masked_digits-le count (suc x / 2) (mask / 2))

pub bit_and-le : (x mask : ℕ) → bit_and x mask ≤ mask
bit_and-le x mask = omega (arith, bit_and-bitwise x mask, masked_digits-le x x mask)
