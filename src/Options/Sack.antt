-- ===== src/Options/Sack.antt =====
-- `offset_sack_blocks` of app/src/main/cpp/run_packet.c: SACK blocks between the script's and the live sequence numbers.
use qo_smos.Prelude.{
  ℕ, zero, suc, ◌+◌, ◌*◌, ◌/◌, ◌%◌, ◌^◌, List, Option, none, some, ◌==◌, if◌then◌else◌, get_elem?,
  set,
}
use qo_smos.Prelude.Words.{add32}
use qo_smos.Options.{
  OptionError, Next, next, finished, overread, failed, num_sack_blocks, tcp_options_begin,
  tcp_options_next,
}

-- The buffer afterwards, or STATUS_ERR; a read outside the buffer and the end of fuel are told apart.
pub data Offset : Type 0 where
  offset_to : List ℕ → Offset
  bad_option : OptionError → Offset
  bad_sack_length outside exhausted : Offset

infixl 5 ◌>>=◌
abbrev ◌>>=◌ {ℓ} : {A B : Type ℓ} → Option A → (A → Option B) → Option B
none >>= f = none
some a >>= f = f a

-- A big-endian word of four bytes.
unfoldable pub get_be32 : List ℕ → ℕ → Option ℕ
get_be32 buffer p = do
  a ← get_elem? buffer p
  b ← get_elem? buffer (p + 1)
  c ← get_elem? buffer (p + 2)
  d ← get_elem? buffer (p + 3)
  some (((a * 2 ^ 8 + b) * 2 ^ 8 + c) * 2 ^ 8 + d)

unfoldable pub put_be32 : List ℕ → ℕ → ℕ → List ℕ
put_be32 buffer p v =
    set
      (set (set (set buffer p (v / 2 ^ 24 % 2 ^ 8)) (p + 1) (v / 2 ^ 16 % 2 ^ 8)) (p + 2)
        (v / 2 ^ 8 % 2 ^ 8))
      (p + 3) (v % 2 ^ 8)

-- The loop over the words of the blocks: the left and the right end of each.
unfoldable pub offset_words : ℕ → List ℕ → ℕ → ℕ → Option (List ℕ)
unfolding get_be32 put_be32
offset_words zero buffer p ack_offset = some buffer
offset_words (suc n) buffer p ack_offset = do
  val ← get_be32 buffer p
  offset_words n (put_be32 buffer p (add32 val ack_offset)) (p + 4) ack_offset

-- The body of the loop over the options.
unfoldable pub offset_option : List ℕ → ℕ → ℕ → Offset
unfolding offset_words num_sack_blocks
offset_option buffer option ack_offset = elim (get_elem? buffer option) [
  | none ↦ outside
  | some kind ↦
      if kind == 5
      then elim (get_elem? buffer (option + 1)) [
        | none ↦ outside
        | some n ↦ elim (num_sack_blocks n) [
          | none ↦ bad_sack_length
          | some num_blocks ↦ elim (offset_words (2 * num_blocks) buffer (option + 2) ack_offset) [
            | none ↦ outside
            | some buffer' ↦ offset_to buffer'
          ]
        ]
      ]
      else offset_to buffer
]

abbrev and_on : Offset → (List ℕ → Offset) → Offset
and_on (offset_to buffer) go_on = go_on buffer
and_on other go_on = other

unfoldable pub offset_loop : ℕ → ℕ → List ℕ → ℕ → Next → Offset
unfolding offset_option tcp_options_next
offset_loop fuel options_end buffer ack_offset finished = offset_to buffer
offset_loop fuel options_end buffer ack_offset (failed e) = bad_option e
offset_loop fuel options_end buffer ack_offset overread = outside
offset_loop zero options_end buffer ack_offset (next option) = exhausted
offset_loop (suc fuel) options_end buffer ack_offset (next option) =
    and_on (offset_option buffer option ack_offset)
      (λ b. offset_loop fuel options_end b ack_offset (tcp_options_next b options_end option))

-- Every step of the loop moves on by a byte at least, so the block's end is enough fuel.
unfoldable pub offset_sack_blocks : List ℕ → ℕ → ℕ → ℕ → Offset
unfolding offset_loop
offset_sack_blocks buffer options_start options_end ack_offset =
    offset_loop (suc options_end) options_end buffer ack_offset
      (tcp_options_begin options_start options_end)
