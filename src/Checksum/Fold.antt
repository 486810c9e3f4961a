-- ===== src/Checksum/Fold.antt =====
-- The folding loops of `ip_checksum_fold`.
use qo_smos.Prelude.{
  ℕ, zero, suc, ◌+◌, ◌-◌, ◌*◌, ◌/◌, ◌%◌, ◌<◌, ◌≡◌, arith, ◌==◌, if◌then◌else◌, Bool-cases, inl, inr,
}
use qo_smos.Prelude.Words.{u16_mod, u32_mod, u64_mod}
use qo_smos.Checksum.{fold_loop, fold_sum, ip_checksum_fold}

-- `r` stands for `s` in one's complement arithmetic: they differ by a multiple of 2 ^ 16 - 1, and
-- one is zero only if the other is.
pub record Same (s r : ℕ) : Type 0 where
  pub multiple : (q : ℕ) × (s ≡ r + 65535 * q)
  pub zeros : s ≡ 0 → r ≡ 0
  pub nonzeros : r ≡ 0 → s ≡ 0

Same-trans : {a b c : ℕ} → Same a b → Same b c → Same a c
Same-trans x y = record {
  multiple = (x.multiple.0 + y.multiple.0, omega (arith, x.multiple.1, y.multiple.1));
  zeros = λ h. y.zeros (x.zeros h);
  nonzeros = λ h. x.nonzeros (y.nonzeros h);
}

fold_32 : (s : ℕ) → Same s (s / u32_mod + s % u32_mod)
fold_32 s = record {
  multiple = (65537 * (s / u32_mod), omega arith);
  zeros = λ h. omega arith;
  nonzeros = λ h. omega arith;
}

fold_16 : (s : ℕ) → Same s (s / u16_mod + s % u16_mod)
fold_16 s = record {
  multiple = (s / u16_mod, omega arith);
  zeros = λ h. omega arith;
  nonzeros = λ h. omega arith;
}

Same-refl : (s : ℕ) → Same s s
Same-refl s = record { multiple = (0, omega arith); zeros = λ h. h; nonzeros = λ h. h }

fold_loop-Same :
    (p : ℕ) → ((s : ℕ) → Same s (s / p + s % p)) → (fuel s : ℕ) → Same s (fold_loop p fuel s)
unfolding fold_loop
fold_loop-Same p step zero s = Same-refl s
fold_loop-Same p step (suc fuel) s = elim (Bool-cases (s / p == 0)) [
  | inl done ↦ rw done (Same-refl s)
  | inr more ↦ rw more (Same-trans (step s) (fold_loop-Same p step fuel (s / p + s % p)))
]

-- Two rounds bring a `u64` below 2 ^ 32, and two more below 2 ^ 16.
fold_loop_32-lt : (s : ℕ) → s < u64_mod → fold_loop u32_mod 2 s < u32_mod
unfolding fold_loop
fold_loop_32-lt s h = ground arith

fold_loop_16-lt : (s : ℕ) → s < u32_mod → fold_loop u16_mod 2 s < u16_mod
unfolding fold_loop
fold_loop_16-lt s h = ground arith

-- On any `u64` both loops end by their tests, with a 16-bit sum that stands for the same number in
-- one's complement arithmetic.
pub fold_sum_lem : (s : ℕ) → s < u64_mod → Same s (fold_sum s) × (fold_sum s < u16_mod)
unfolding fold_sum
fold_sum_lem s h =
    let low = fold_loop_32-lt s h in
    (
      Same-trans (fold_loop-Same u32_mod fold_32 2 s)
          (fold_loop-Same u16_mod fold_16 2 (fold_loop u32_mod 2 s)),
      fold_loop_16-lt (fold_loop u32_mod 2 s) low,
    )

-- The number that the complement of the sum stands for, in one's complement arithmetic.
abbrev pub complement16 : ℕ → ℕ
complement16 s = if s == 0 then 65535 else 65534 - (s - 1) % 65535

-- On any `u64` sum the fold is the 16-bit one's complement of the sum modulo 2 ^ 16 - 1, where a sum
-- that is not zero is read as 1 to 65535.
pub ip_checksum_fold_lem : (s : ℕ) → s < u64_mod → ip_checksum_fold s ≡ complement16 s
unfolding ip_checksum_fold
ip_checksum_fold_lem s h =
    let (same, small) = fold_sum_lem s h in ground (arith, same.multiple, same.zeros, same.nonzeros)
