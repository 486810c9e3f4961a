-- ===== src/Address/Random.antt =====
-- Where the host bits of generated addresses lie.
use qo_smos.Prelude.{ℕ, zero, suc, ◌+◌, ◌-◌, ◌^◌, ◌≤◌, ◌<◌, arith, two_pow_pos, pow_two}
use qo_smos.Address.{random_ipv4_host}

four_hosts : (k : ℕ) → 2 ≤ k → 4 ≤ 2 ^ k
four_hosts (suc (suc k)) h = omega (arith, pow_two (suc k), pow_two k, two_pow_pos k)
four_hosts (suc zero) h = absurd (omega arith)
four_hosts zero h = absurd (omega arith)

-- For a prefix of 1 to 30 bits the host bits of a generated IPv4 address are neither those of the network (0), of the gateway (1) nor of the broadcast (all ones), and lie outside the prefix.
pub random_ipv4_host-bounds :
    (prefix_len rnd : ℕ)
    → 1 ≤ prefix_len
    → prefix_len ≤ 30
    → (2 ≤ random_ipv4_host prefix_len rnd)
      × (random_ipv4_host prefix_len rnd + 1 < 2 ^ (32 - prefix_len))
unfolding random_ipv4_host
random_ipv4_host-bounds prefix_len rnd some_bits few =
    ground (arith, four_hosts (32 - prefix_len) (omega arith))
