-- ===== src/Tests/Opts.antt =====
-- Runs of the TCP options.
use qo_smos.Prelude.{ℕ, ◌+◌, ◌*◌, ◌≤◌, ◌≡◌, ◌↔◌, refl, List, [], ◌∷◌, some, arith}
use qo_smos.Options.{
  TcpOption, tcp_options_new, num_sack_blocks, found, not_found, bad_length, find_tcp_timestamp,
  find_loop, tcp_options_next, get_current_option, get_expected_tcp_option_length,
  get_tcp_option_length, advance,
}
use qo_smos.Options.Iteration.{IsFound, find_tcp_timestamp-IsFound}
use qo_smos.Options.Building.{
  IsBlock, IsAppended, tcp_options_append-IsAppended, num_sack_blocks_lem,
}

-- Two NOPs and a timestamp
abbrev usual : List ℕ
usual = 1 ∷ 1 ∷ 8 ∷ 10 ∷ 0 ∷ 0 ∷ 0 ∷ 7 ∷ 0 ∷ 0 ∷ 0 ∷ 9 ∷ []

usual_option :
    (find_tcp_timestamp usual 0 12 ≡ found (some (4, 8)))
    × (find_tcp_timestamp (8 ∷ 9 ∷ 0 ∷ 0 ∷ 0 ∷ 7 ∷ 0 ∷ 0 ∷ 0 ∷ []) 0 9 ≡ not_found bad_length)
unfolding find_tcp_timestamp find_loop tcp_options_next get_current_option
    get_expected_tcp_option_length get_tcp_option_length advance
usual_option = (refl, refl)

abbrev maxseg : TcpOption
maxseg = record { kind = 2; length = 4; bytes = 5 ∷ 180 ∷ [] }

new-IsBlock : IsBlock tcp_options_new
unfolding tcp_options_new
new-IsBlock = record { size = refl; room = omega arith }

find_tcp_timestamp-IsFound_example : IsFound usual 12 (find_tcp_timestamp usual 0 12)
find_tcp_timestamp-IsFound_example = find_tcp_timestamp-IsFound usual 12 (omega arith) 0

tcp_options_append-IsAppended_example : IsAppended tcp_options_new maxseg
tcp_options_append-IsAppended_example =
    tcp_options_append-IsAppended tcp_options_new maxseg new-IsBlock (omega arith)

three_sack_blocks : (num_sack_blocks 26 ≡ some 3) ↔ ((26 ≡ 2 + 8 * 3) × (1 ≤ 3))
three_sack_blocks = num_sack_blocks_lem 26 3
