-- ===== src/Mpls.antt =====
-- MPLS label stack entries of app/src/main/cpp/mpls.h and mpls_packet.c, and the stack of a script's packet.
pub mod Fields
use Prim.Native.Nat.{bit_or}
use qo_smos.Prelude.{
  ℕ, ◌+◌, ◌*◌, ◌/◌, ◌%◌, ◌^◌, Bool, true, false, ◌||◌, List, [], ◌∷◌, ◌++◌, Option, none, some, leb,
  ◌==◌, if◌then◌else◌, length,
}
use qo_smos.Prelude.Int.{ℤ, pos, negsuc, ltb_ℤ, pos_part}

-- An entry is the 32-bit word of `ntohl`. A mask and a shift are a quotient and a remainder.
unfoldable pub mpls_entry_label : ℕ → ℕ
mpls_entry_label entry = entry / 2 ^ 12 % 2 ^ 20

unfoldable pub mpls_entry_tc : ℕ → ℕ
mpls_entry_tc entry = entry / 2 ^ 9 % 2 ^ 3

unfoldable pub mpls_entry_stack : ℕ → Bool
mpls_entry_stack entry = entry / 2 ^ 8 % 2 == 1

unfoldable pub mpls_entry_ttl : ℕ → ℕ
mpls_entry_ttl entry = entry % 2 ^ 8

-- `traffic_class` and `ttl` are bytes. Only bits of the traffic class above its lowest three can meet
-- bits of another field, those of the label, so that `or` is a sum elsewhere.
unfoldable pub mpls_entry_set : ℕ → ℕ → Bool → ℕ → ℕ
mpls_entry_set label traffic_class is_stack_bottom ttl =
    bit_or (label % 2 ^ 20) (traffic_class / 2 ^ 3) * 2 ^ 12
    + traffic_class % 2 ^ 3 * 2 ^ 9
    + (if is_stack_bottom then 2 ^ 8 else 0)
    + ttl

abbrev pub out_of_range : ℤ → ℕ → Bool
out_of_range field bits = ltb_ℤ field (pos 0) || leb (2 ^ bits) (pos_part field)

-- `none` is STATUS_ERR with the message for a field that is out of range.
unfoldable pub new_mpls_stack_entry : ℤ → ℤ → Bool → ℤ → Option ℕ
unfolding mpls_entry_set
new_mpls_stack_entry label traffic_class is_stack_bottom ttl =
    if out_of_range label 20
    then none
    else if out_of_range traffic_class 3
    then none
    else if out_of_range ttl 8
    then none
    else some
        (mpls_entry_set (pos_part label) (pos_part traffic_class) is_stack_bottom (pos_part ttl))

abbrev pub mpls_stack_max_entries : ℕ
mpls_stack_max_entries = 6

-- A stack is the list of its entries. `none` is STATUS_ERR for a full one.
unfoldable pub mpls_stack_append : List ℕ → ℕ → Option (List ℕ)
mpls_stack_append stack mpls =
    if leb mpls_stack_max_entries (length stack) then none else some (stack ++ mpls ∷ [])
