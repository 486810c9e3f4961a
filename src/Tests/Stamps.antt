-- ===== src/Tests/Stamps.antt =====
-- Runs of the timestamps of a socket.
use qo_smos.Prelude.{◌≡◌, refl, false, [], ◌∷◌, some, arith}
use qo_smos.Prelude.Words.{add32}
use qo_smos.HashMap.{hash_map_new}
use qo_smos.HashMap.Lookup.{hash_map_new-IsValid}
use qo_smos.Socket.Timestamps.{
  TsState, Stamp, map_outbound_all, map_outbound_ts, map_inbound_ts, script_value,
  map_inbound_ts-latest, script_value-ticks,
}

abbrev no_stamps : TsState
no_stamps = record {
  ts_val_map = hash_map_new 1;
  found_first_tcp_ts = false;
  first_script_ts_val = 0;
  first_actual_ts_val = 0;
}

abbrev early : Stamp
early = record { script_ts_val = 100; actual_ts_val = 4294967290 }

abbrev again : Stamp
again = record { script_ts_val = 100; actual_ts_val = 4294967291 }

abbrev later : Stamp
later = record { script_ts_val = 110; actual_ts_val = 5 }

map_inbound_ts-latest_example :
    map_inbound_ts false (map_outbound_all no_stamps (later ∷ again ∷ early ∷ [])) 100
    ≡ some 4294967291
map_inbound_ts-latest_example =
    map_inbound_ts-latest false no_stamps (later ∷ again ∷ early ∷ []) 100 4294967291
      (hash_map_new-IsValid 1).0 ((hash_map_new-IsValid 1).1 100) refl

script_value-ticks_example :
    script_value (map_outbound_ts no_stamps early) (add32 4294967290 11) ≡ add32 100 11
script_value-ticks_example =
    script_value-ticks no_stamps early 11 refl (omega arith) (omega arith) (omega arith)
