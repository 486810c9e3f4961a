-- ===== src/Verify/TcpOptions.antt =====
-- `verify_outbound_live_tcp_options` of app/src/main/cpp/run_packet.c.
pub mod Same
use qo_smos.Prelude.{
  ℕ, zero, suc, ◌+◌, ◌-◌, ◌*◌, ◌^◌, ◌≤◌, ◌<◌, min, ◌≡◌, ◌≢◌, ◌↔◌, ◌⊎◌, refl, inl, inr, Bool, true,
  false, not, ◌&&◌, ◌||◌, List, [], ◌∷◌, Option, none, some, ltb, leb, ◌==◌, if◌then◌else◌, length,
  take, drop, get_elem?, arith, ==_refl, Option-cases,
}
use qo_smos.Prelude.Words.{sub32, u32_mod}
use qo_smos.Options.{
  Next, next, finished, overread, failed, tcp_options_begin, tcp_options_next,
  get_expected_tcp_option_length, get_tcp_option_length, advance,
}
use qo_smos.Socket.Matching.{is_equal_ip_refl}
use qo_smos.Socket.{is_equal_ip}

-- STATUS_OK, or the messages; a read outside a buffer, the overflow of an `int`, which C leaves undefined, and
-- the end of fuel are told apart.
pub data OptionVerdict : Type 0 where
  options_ok bad_options bad_timestamp bad_lengths bad_value : OptionVerdict
  unread overflowed unfinished : OptionVerdict

-- The options in a packet's buffer, and the value behind the pointer `tcp_ts_val`.
pub record OptionBlock : Type 0 where
  pub buffer : List ℕ
  pub options_start : ℕ
  pub options_end : ℕ
  pub ts_val : ℕ

-- What is read of `struct config`
pub record TsConfig : Type 0 where
  pub tolerance_usecs : ℕ
  pub tcp_ts_tick_usecs : ℕ

-- `abs((s32)d)` for a difference `d` on `u32`; 2^31 is the result that no `int` has.
unfoldable pub abs32 : ℕ → ℕ
abs32 d = if ltb d (2 ^ 31) then d else u32_mod - d

-- The tick and the tolerance are not negative.
unfoldable pub verify_timestamp : TsConfig → ℕ → ℕ → OptionVerdict
unfolding abs32
verify_timestamp config script_ts_val actual_ts_val =
    let deviation_usecs = abs32 (sub32 actual_ts_val script_ts_val) * config.tcp_ts_tick_usecs in
    if config.tcp_ts_tick_usecs == 0
    then options_ok
    else if leb (2 ^ 31) deviation_usecs
    then overflowed
    else if ltb config.tolerance_usecs deviation_usecs
    then bad_timestamp
    else options_ok

-- `memcmp` is equality of the bytes, all of which it may read.
unfoldable pub verify_bytes : List ℕ → ℕ → ℕ → List ℕ → ℕ → ℕ → OptionVerdict
verify_bytes actual a a_length script s s_length =
    if not (s_length == a_length)
    then bad_lengths
    else if leb s_length 2
    then options_ok
    else if ltb (length actual) (a + a_length) || ltb (length script) (s + s_length)
    then unread
    else if is_equal_ip (take (a_length - 2) (drop (a + 2) actual))
        (take (a_length - 2) (drop (s + 2) script))
    then options_ok
    else bad_value

unfoldable pub verify_outbound_tcp_option :
    TsConfig → OptionBlock → OptionBlock → ℕ → ℕ → ℕ → OptionVerdict
unfolding verify_timestamp verify_bytes
verify_outbound_tcp_option config actual script kind a s =
    if (kind == 0) || (kind == 1)
    then options_ok
    else if kind == 8
    then verify_timestamp config script.ts_val actual.ts_val
    else elim (get_elem? actual.buffer (a + 1)) [
      | none ↦ unread
      | some a_length ↦ elim (get_elem? script.buffer (s + 1)) [
        | none ↦ unread
        | some s_length ↦ verify_bytes actual.buffer a a_length script.buffer s s_length
      ]
    ]

-- The option that both packets have at the iterators.
unfoldable pub verify_pair : TsConfig → OptionBlock → OptionBlock → ℕ → ℕ → OptionVerdict
unfolding verify_outbound_tcp_option
verify_pair config actual script a s = elim (get_elem? actual.buffer a) [
  | none ↦ unread
  | some a_kind ↦ elim (get_elem? script.buffer s) [
    | none ↦ unread
    | some s_kind ↦
        if a_kind == s_kind
        then verify_outbound_tcp_option config actual script a_kind a s
        else bad_options
  ]
]

abbrev pub and_then : OptionVerdict → OptionVerdict → OptionVerdict
and_then options_ok v = v
and_then other v = other

-- NULL from an iterator: the end, or an error, which the loop does not look at.
abbrev pub is_null : Next → Bool
is_null (next option) = false
is_null overread = false
is_null _ = true

unfoldable pub options_loop : ℕ → TsConfig → OptionBlock → OptionBlock → Next → Next → OptionVerdict
unfolding verify_pair tcp_options_next
options_loop fuel config actual script overread s = unread
options_loop fuel config actual script a overread = unread
options_loop zero config actual script (next a) (next s) = unfinished
options_loop (suc fuel) config actual script (next a) (next s) =
    let rest =
      options_loop fuel config actual script (tcp_options_next actual.buffer actual.options_end a)
        (tcp_options_next script.buffer script.options_end s) in
    and_then (verify_pair config actual script a s) rest
options_loop fuel config actual script a s =
    if is_null a && is_null s then options_ok else bad_options

-- Each round moves both iterators on, so the end of one block is enough fuel.
unfoldable pub verify_outbound_live_tcp_options :
    TsConfig → Bool → OptionBlock → OptionBlock → OptionVerdict
unfolding options_loop
verify_outbound_live_tcp_options config options_nocheck actual script =
    if options_nocheck
    then options_ok
    else options_loop (suc actual.options_end) config actual script
        (tcp_options_begin actual.options_start actual.options_end)
        (tcp_options_begin script.options_start script.options_end)
