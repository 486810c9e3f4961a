-- ===== src/Socket/Timestamps.antt =====
-- TCP timestamps between the script and the wire: `map_outbound_live_packet` records in the socket's
-- hash map what live value stands for a script's value, and `map_inbound_packet` of
-- app/src/main/cpp/run_packet.c looks up an echo reply there.
use qo_smos.Prelude.{
  ℕ, ◌<◌, ◌≡◌, refl, Bool, true, false, List, [], ◌∷◌, Option, none, some, arith, ◌==◌,
  if◌then◌else◌,
}
use qo_smos.Prelude.Words.{add32, sub32, u32_mod}
use qo_smos.HashMap.{HashMap, hash_map_get, hash_map_set}
use qo_smos.HashMap.Lookup.{IsValid, hash_map_set-IsValid, hash_map_get-set}

-- The timestamps of `struct socket`
pub record TsState : Type 0 where
  pub ts_val_map : HashMap
  pub found_first_tcp_ts : Bool
  pub first_script_ts_val : ℕ
  pub first_actual_ts_val : ℕ

-- The script's and the live value of an outbound timestamp.
pub record Stamp : Type 0 where
  pub script_ts_val : ℕ
  pub actual_ts_val : ℕ

-- The baseline is that of the first timestamp; the echo replies' baseline is not read anywhere.
unfoldable pub note_first : TsState → Stamp → TsState
note_first ts stamp = if ts.found_first_tcp_ts then ts else record ts {
  found_first_tcp_ts = true;
  first_script_ts_val = stamp.script_ts_val;
  first_actual_ts_val = stamp.actual_ts_val;
}

-- What the socket remembers of an outbound packet with a timestamp.
unfoldable pub map_outbound_ts : TsState → Stamp → TsState
unfolding note_first
map_outbound_ts ts stamp =
    note_first
      (record ts {
        ts_val_map = hash_map_set ts.ts_val_map stamp.script_ts_val stamp.actual_ts_val;
      })
      stamp

-- The value that is then written over the live one, to be compared with the script's.
unfoldable pub script_value : TsState → ℕ → ℕ
script_value ts actual_ts_val =
    add32 ts.first_script_ts_val (sub32 actual_ts_val ts.first_actual_ts_val)

-- The live echo reply for a script's, with the option `tcp_ts_ecr_scaled`; `none` is the error.
unfoldable pub map_inbound_ts : Bool → TsState → ℕ → Option ℕ
map_inbound_ts tcp_ts_ecr_scaled ts ecr = elim (hash_map_get ts.ts_val_map ecr) [
  | some live_ts_ecr ↦ some live_ts_ecr
  | none ↦
      if tcp_ts_ecr_scaled
      then if ts.found_first_tcp_ts
        then some (add32 (sub32 ecr ts.first_script_ts_val) ts.first_actual_ts_val)
        else none
      else none
]

-- The outbound timestamps of a run, the latest first.
abbrev pub map_outbound_all : TsState → List Stamp → TsState
map_outbound_all ts [] = ts
map_outbound_all ts (stamp ∷ stamps) = map_outbound_ts (map_outbound_all ts stamps) stamp

-- The live value of the latest outbound timestamp that had this value in the script.
abbrev pub latest : List Stamp → ℕ → Option ℕ
latest [] ecr = none
latest (stamp ∷ stamps) ecr =
    if stamp.script_ts_val == ecr then some stamp.actual_ts_val else latest stamps ecr

map-note_first : (ts : TsState) (stamp : Stamp) → (note_first ts stamp).ts_val_map ≡ ts.ts_val_map
unfolding note_first
map-note_first ts stamp = ground arith

map-map_outbound_ts :
    (ts : TsState) (stamp : Stamp)
    → (map_outbound_ts ts stamp).ts_val_map
      ≡ hash_map_set ts.ts_val_map stamp.script_ts_val stamp.actual_ts_val
unfolding map_outbound_ts
map-map_outbound_ts ts stamp = map-note_first _ stamp

all-IsValid :
    (ts : TsState) (stamps : List Stamp)
    → IsValid ts.ts_val_map
    → IsValid (map_outbound_all ts stamps).ts_val_map
all-IsValid ts [] v = v
all-IsValid ts (stamp ∷ stamps) v =
    rw (map-map_outbound_ts (map_outbound_all ts stamps) stamp)
      (hash_map_set-IsValid _ stamp.script_ts_val stamp.actual_ts_val (all-IsValid ts stamps v))

get-all :
    (ts : TsState) (stamps : List Stamp) (ecr : ℕ)
    → IsValid ts.ts_val_map
    → hash_map_get ts.ts_val_map ecr ≡ none
    → hash_map_get (map_outbound_all ts stamps).ts_val_map ecr ≡ latest stamps ecr
get-all ts [] ecr v absent = absent
get-all ts (stamp ∷ stamps) ecr v absent =
    rw
      (
        map-map_outbound_ts (map_outbound_all ts stamps) stamp,
        hash_map_get-set _ stamp.script_ts_val stamp.actual_ts_val ecr (all-IsValid ts stamps v),
        get-all ts stamps ecr v absent,
      )
      refl

-- From a map that does not hold the echo reply, after any outbound timestamps, an inbound echo reply
-- that the script has from one of them is mapped to the live value of the latest such timestamp,
-- whatever growth the map has been through.
pub map_inbound_ts-latest :
    (scaled : Bool) (ts : TsState) (stamps : List Stamp) (ecr live : ℕ)
    → IsValid ts.ts_val_map
    → hash_map_get ts.ts_val_map ecr ≡ none
    → latest stamps ecr ≡ some live
    → map_inbound_ts scaled (map_outbound_all ts stamps) ecr ≡ some live
unfolding map_inbound_ts
map_inbound_ts-latest scaled ts stamps ecr live v absent known =
    rw (map_inbound_ts, get-all ts stamps ecr v absent, known) refl

-- The first timestamp that a socket sends reads as the script's value, and one sent `d` ticks of the
-- live clock later reads as that value and `d` ticks, modulo 2 ^ 32.
pub script_value-ticks :
    (ts : TsState) (stamp : Stamp) (d : ℕ)
    → ts.found_first_tcp_ts ≡ false
    → stamp.script_ts_val < u32_mod
    → stamp.actual_ts_val < u32_mod
    → d < u32_mod
    → script_value (map_outbound_ts ts stamp) (add32 stamp.actual_ts_val d)
      ≡ add32 stamp.script_ts_val d
unfolding script_value map_outbound_ts note_first
script_value-ticks ts stamp d first hs ha hd = rw (note_first, first) (omega arith)
