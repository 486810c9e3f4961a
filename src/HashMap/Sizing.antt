-- ===== src/HashMap/Sizing.antt =====
-- The number of buckets that `hash_map_new` picks.
use qo_smos.Prelude.{
  ℕ, zero, suc, ◌+◌, ◌*◌, ◌^◌, ◌≤◌, ◌<◌, ◌≡◌, ◌⊎◌, inl, inr, ◌&&◌, false, refl, arith, ltb,
  Bool-cases, pow_two,
}
use native.Mathlib.Nat.{pow-le-pow_right}
use qo_smos.HashMap.{max_buckets, pick_loop, hash_map_pick_bucket_count}

-- What the loop has when it stops: a power of two up to `max_buckets`, at least the number of keys
-- unless it is `max_buckets`, and no larger power of two than needed.
pub record Picked (num_keys n : ℕ) : Type 0 where
  pub power : (k : ℕ) × (n ≡ 2 ^ k) × (k ≤ 30)
  pub enough : (num_keys ≤ n) ⊎ (n ≡ max_buckets)
  pub least : (n ≡ 1) ⊎ (n < num_keys * 2)

pick_loop-Picked :
    (fuel k num_keys : ℕ)
    → fuel + k ≡ 30
    → (2 ^ k ≡ 1) ⊎ (2 ^ k < num_keys * 2)
    → Picked num_keys (pick_loop fuel num_keys (2 ^ k))
unfolding pick_loop
pick_loop-Picked zero k num_keys e least = record {
  power = (k, refl, omega arith);
  enough = inr (let e' : k ≡ 30 = omega arith in rw e');
  least = least;
}
pick_loop-Picked (suc fuel) k num_keys e least =
    elim (Bool-cases (ltb (2 ^ k) num_keys && ltb (2 ^ k) max_buckets)) [
      | inl go ↦ rw go (
          rw (← doubled)
            (pick_loop-Picked fuel (suc k) num_keys (omega arith) (inr (ground (arith, doubled)))))
      | inr stop ↦
          rw stop (record { power = (k, refl, omega arith); enough = more stop; least = least })
    ]
  where
    doubled : 2 ^ suc k ≡ 2 ^ k * 2
    doubled = omega (arith, pow_two k)

    more :
        (ltb (2 ^ k) num_keys && ltb (2 ^ k) max_buckets) ≡ false
        → (num_keys ≤ 2 ^ k) ⊎ (2 ^ k ≡ max_buckets)
    more h = ground (arith, pow-le-pow_right {n = 2} (omega arith) {i = k} {j = 30} (omega arith))

-- For any number of keys, the bucket count picked is a power of two up to `max_buckets`; it is at
-- least the number of keys unless it is `max_buckets`; and it is 1 or less than twice that number.
pub hash_map_pick_bucket_count-Picked :
    (num_keys : ℕ) → Picked num_keys (hash_map_pick_bucket_count num_keys)
unfolding hash_map_pick_bucket_count
hash_map_pick_bucket_count-Picked num_keys = pick_loop-Picked 30 0 num_keys refl (inl refl)
