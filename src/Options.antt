-- ===== src/Options.antt =====
-- TCP options: the list under construction of app/src/main/cpp/tcp_options.c, and the iterator of
-- tcp_options_iterator.c. A pointer into the packet is its offset in the buffer.
pub mod Iteration
pub mod Building
pub mod Sack
use qo_smos.Prelude.{
  ℕ, zero, suc, ◌+◌, ◌-◌, ◌*◌, ◌/◌, ◌%◌, ◌^◌, Bool, true, false, not, ◌&&◌, ◌||◌, List, [], ◌∷◌,
  ◌++◌, Option, none, some, ltb, leb, ◌==◌, if◌then◌else◌, length, take, drop, replicate, get_elem?,
}
use qo_smos.Prelude.Words.{u8_mod}

abbrev pub max_tcp_option_bytes : ℕ
max_tcp_option_bytes = 15 * 4 - 20

-- `struct tcp_options`
pub record TcpOptions : Type 0 where
  pub bytes : List ℕ
  pub length : ℕ

-- `struct tcp_option`: the kind, the length and the bytes behind them
pub record TcpOption : Type 0 where
  pub kind : ℕ
  pub length : ℕ
  pub bytes : List ℕ

unfoldable pub tcp_options_new : TcpOptions
tcp_options_new = record { bytes = replicate max_tcp_option_bytes 0; length = 0 }

-- What `memcpy` copies from an option.
unfoldable pub option_bytes : TcpOption → List ℕ
option_bytes option = take option.length (option.kind ∷ option.length ∷ option.bytes)

-- The length is a `u8`; `none` is STATUS_ERR.
unfoldable pub tcp_options_append : TcpOptions → TcpOption → Option TcpOptions
unfolding option_bytes
tcp_options_append options option =
    if ltb max_tcp_option_bytes (options.length + option.length)
    then none
    else some (record {
      bytes =
          take options.length options.bytes
          ++ (option_bytes option ++ drop (options.length + option.length) options.bytes);
      length = (options.length + option.length) % u8_mod;
    })

unfoldable pub num_sack_blocks : ℕ → Option ℕ
num_sack_blocks opt_len =
    if leb opt_len 2
    then none
    else if (opt_len - 2) % 8 == 0
    then some ((opt_len - 2) / 8)
    else none

pub data OptionError : Type 0 where
  unexpected_kind length_byte_too_far length_too_short data_too_far bad_length : OptionError

-- What the iterator gives: the next option, NULL at the end, or NULL with an error set. A read
-- outside the buffer is told apart.
pub data Next : Type 0 where
  next : ℕ → Next
  finished overread : Next
  failed : OptionError → Next

-- The length by kind: 0 for a variable length, `none` for an unknown kind.
unfoldable pub get_expected_tcp_option_length : ℕ → Option ℕ
get_expected_tcp_option_length kind =
    if (kind == 0) || (kind == 1)
    then some 1
    else if kind == 2
    then some 4
    else if kind == 3
    then some 3
    else if kind == 4
    then some 2
    else if kind == 8
    then some 10
    else if (kind == 5) || (kind == 19) || (kind == 34) || (kind == 254)
    then some 0
    else none

pub data Measured : Type 0 where
  measured : ℕ → Measured
  unread : Measured
  wrong : OptionError → Measured

unfoldable pub get_tcp_option_length : List ℕ → ℕ → ℕ → ℕ → Measured
get_tcp_option_length buffer option end expected_length =
    if leb end (option + 1)
    then wrong length_byte_too_far
    else elim (get_elem? buffer (option + 1)) [
      | none ↦ unread
      | some n ↦
          if ltb n 2
          then wrong length_too_short
          else if ltb end (option + n)
          then wrong data_too_far
          else if not (expected_length == 0) && not (n == expected_length)
          then wrong bad_length
          else measured n
    ]

-- The option at the iterator, NULL at the end of the block. The assert that the iterator is not behind
-- the end is left out: it holds for a block that does not end before its start.
unfoldable pub get_current_option : ℕ → ℕ → Next
get_current_option options_end current = if leb options_end current then finished else next current

abbrev pub tcp_options_begin : ℕ → ℕ → Next
tcp_options_begin options_start options_end = get_current_option options_end options_start

-- The iterator behind an option of the length measured.
unfoldable pub advance : ℕ → ℕ → Measured → Next
unfolding get_current_option
advance options_end current unread = overread
advance options_end current (wrong e) = failed e
advance options_end current (measured n) = get_current_option options_end (current + n)

unfoldable pub tcp_options_next : List ℕ → ℕ → ℕ → Next
unfolding get_expected_tcp_option_length get_tcp_option_length get_current_option advance
tcp_options_next buffer options_end current = elim (get_elem? buffer current) [
  | none ↦ overread
  | some kind ↦ elim (get_expected_tcp_option_length kind) [
    | none ↦ failed unexpected_kind
    | some expected_length ↦
        if expected_length == 1
        then get_current_option options_end (current + 1)
        else advance options_end current
            (get_tcp_option_length buffer current options_end expected_length)
  ]
]

-- `packet->tcp_ts_val` and `packet->tcp_ts_ecr`
abbrev pub TsFields : Type 0
TsFields = Option (ℕ × ℕ)

pub data Found : Type 0 where
  found : TsFields → Found
  not_found : OptionError → Found
  lost stuck : Found

-- The body of the loop of `find_tcp_timestamp`.
abbrev pub note_timestamp : List ℕ → ℕ → TsFields → TsFields
note_timestamp buffer option fields = elim (get_elem? buffer option) [
  | none ↦ fields
  | some kind ↦ if kind == 8 then some (option + 2, option + 6) else fields
]

-- The loop of `find_tcp_timestamp` in run_packet.c, with fuel: `stuck` is its end.
unfoldable pub find_loop : List ℕ → ℕ → ℕ → TsFields → Next → Found
unfolding tcp_options_next
find_loop buffer options_end fuel fields finished = found fields
find_loop buffer options_end fuel fields (failed e) = not_found e
find_loop buffer options_end fuel fields overread = lost
find_loop buffer options_end zero fields (next option) = stuck
find_loop buffer options_end (suc fuel) fields (next option) =
    find_loop buffer options_end fuel (note_timestamp buffer option fields)
      (tcp_options_next buffer options_end option)

-- Every step of the loop moves on by a byte at least, so the block's end is enough fuel.
unfoldable pub find_tcp_timestamp : List ℕ → ℕ → ℕ → Found
unfolding find_loop
find_tcp_timestamp buffer options_start options_end =
    find_loop buffer options_end (suc options_end) none
      (tcp_options_begin options_start options_end)
