-- ===== src/Verify/TcpOptions/Same.antt =====
-- When the comparison of TCP options succeeds.
use qo_smos.Prelude.{ℕ, ◌*◌, ◌^◌, ◌≤◌, ◌<◌, min, ◌≡◌, ◌≢◌, ◌↔◌, ◌⊎◌, arith}
use qo_smos.Prelude.Words.{sub32, u32_mod}
use qo_smos.Verify.TcpOptions.{
  options_ok, overflowed, bad_timestamp, TsConfig, abs32, verify_timestamp,
}

-- The distance of two words round the circle of the 2^32 timestamps.
abbrev pub distance : ℕ → ℕ → ℕ
distance a b = min (sub32 a b) (sub32 b a)

abs32_lem : (a b : ℕ) → a < u32_mod → b < u32_mod → abs32 (sub32 a b) ≡ distance a b
unfolding abs32
abs32_lem a b ha hb = ground arith

-- For words, the check of a timestamp option reads the distance to the script's value round the circle of words, in the time of the configured tick: it passes exactly when the tick is 0 or that time is an int and at most the tolerance, it overflows exactly when the tick is not 0 and the time is no int, and it never fails on other grounds than a time above the tolerance.
pub verify_timestamp-exact :
    (config : TsConfig) (script_ts_val actual_ts_val : ℕ)
    → script_ts_val < u32_mod
    → actual_ts_val < u32_mod
    → let usecs = distance actual_ts_val script_ts_val * config.tcp_ts_tick_usecs in
      let verdict = verify_timestamp config script_ts_val actual_ts_val in
      ((verdict ≡ options_ok)
        ↔ ((config.tcp_ts_tick_usecs ≡ 0) ⊎ ((usecs < 2 ^ 31) × (usecs ≤ config.tolerance_usecs))))
      × ((verdict ≡ overflowed) ↔ ((config.tcp_ts_tick_usecs ≢ 0) × (2 ^ 31 ≤ usecs)))
      × (verdict ≡ bad_timestamp → config.tolerance_usecs < usecs)
unfolding verify_timestamp
verify_timestamp-exact config script_ts_val actual_ts_val hs ha =
    rw (abs32_lem actual_ts_val script_ts_val ha hs)
      ((ground arith, ground arith), (ground arith, ground arith), ground arith)
