-- ===== src/Tests/Wires.antt =====
-- Runs of the wire protocol.
use qo_smos.Prelude.{ℕ, ◌≡◌, refl, List, [], ◌∷◌, ◌++◌, replicate, arith}
use qo_smos.Wire.{
  Call, moves, interrupted, ok, message, failed, be32, wire_conn_write, wire_conn_read,
}
use qo_smos.Wire.Delivery.{wire_conn_read-write}

-- Three bytes in a call, or one
abbrev by_threes : List Call
by_threes = interrupted ∷ moves 2 ∷ interrupted ∷ replicate 12 (moves 2)

abbrev by_ones : List Call
by_ones = interrupted ∷ replicate 12 (moves 0)

abbrev hello : List ℕ
hello = 104 ∷ 101 ∷ 121 ∷ []

wire_conn_read-write_example :
    ((wire_conn_write by_threes 3 hello).status ≡ ok)
    × (wire_conn_read by_ones ((wire_conn_write by_threes 3 hello).bytes ++ (1 ∷ 2 ∷ []))
        ≡ message 3 hello (1 ∷ 2 ∷ []))
wire_conn_read-write_example =
    wire_conn_read-write by_threes by_ones 3 hello (1 ∷ 2 ∷ []) tt tt (omega arith) (omega arith)
      (omega arith) (omega arith)

-- A length of less than the header's own is refused.
bad_length : wire_conn_read (replicate 12 (moves 100)) (be32 7 ++ (be32 3 ++ hello)) ≡ failed
unfolding wire_conn_read be32
bad_length = refl
