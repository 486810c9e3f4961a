-- ===== src/Tests/Live.antt =====
-- Runs of the comparison of a live packet with the script's.
use qo_smos.Prelude.{
  ◌*◌, ◌^◌, ◌<◌, ◌≤◌, ◌⊎◌, ◌↔◌, ℕ, ◌≡◌, ◌≢◌, inr, refl, Bool, true, false, [], ◌∷◌, none, some,
  arith,
}
use qo_smos.Prelude.Int.{pos, ◌+ℤ◌, ◌-ℤ◌}
use qo_smos.Options.{found, find_tcp_timestamp}
use qo_smos.Socket.{is_equal_ip}
use qo_smos.Timing.{absolute_time, check_event_time}
use qo_smos.Verify.Fields.{tos_check_tos, ipv4, Ipv4, tcp, Tcp}
use qo_smos.Verify.{
  ◌also◌, check_field, only_if, verify_outbound_live_headers, verify_outbound_live_tos,
  verify_outbound_live_ttl_or_hl,
}
use qo_smos.Verify.Flowlabel.{FlowlabelMap}
use qo_smos.Verify.TcpOptions.{
  options_ok, overflowed, bad_timestamp, OptionBlock, TsConfig, verify_timestamp,
}
use qo_smos.Verify.TcpOptions.Same.{distance, verify_timestamp-exact}
use qo_smos.Verify.Live.{
  ok, warn, LivePacket, verify_outbound_live_packet, verify_outbound_live_checksums,
  check_flowlabel, check_options,
}
use qo_smos.Verify.Live.Results.{
  Passes, verify_outbound_live_packet-exact, verify_outbound_live_packet-warns,
}
use qo_smos.Tests.Times.{mid_run, packet_at}

abbrev ticks : TsConfig
ticks = record { tolerance_usecs = 4000; tcp_ts_tick_usecs = 1000 }

-- Four ticks on the other side of the end of the words
verify_timestamp-exact_example :
    let usecs : ℕ = distance 2 4294967294 * 1000 in
    let verdict = verify_timestamp ticks 4294967294 2 in
    ((verdict ≡ options_ok) ↔ ((ticks.tcp_ts_tick_usecs ≡ 0) ⊎ ((usecs < 2 ^ 31) × (usecs ≤ 4000))))
    × ((verdict ≡ overflowed) ↔ ((ticks.tcp_ts_tick_usecs ≢ 0) × (2 ^ 31 ≤ usecs)))
    × (verdict ≡ bad_timestamp → 4000 < usecs)
verify_timestamp-exact_example =
    verify_timestamp-exact ticks 4294967294 2 (omega arith) (omega arith)

-- A distance of 4294968 ticks of a millisecond is no int.
too_far : verify_timestamp ticks 0 4294968 ≡ overflowed
unfolding verify_timestamp
too_far = refl

-- A segment size, two bytes of padding and a timestamp
abbrev block : OptionBlock
block = record {
  buffer = 2 ∷ 4 ∷ 5 ∷ 180 ∷ 1 ∷ 1 ∷ 8 ∷ 10 ∷ 0 ∷ 0 ∷ 0 ∷ 100 ∷ 0 ∷ 0 ∷ 0 ∷ 7 ∷ [];
  options_start = 0;
  options_end = 16;
  ts_val = 100;
}

block_found : find_tcp_timestamp block.buffer 0 16 ≡ found (some (8, 12))
unfolding find_tcp_timestamp
block_found = refl

abbrev header : ℕ → Tcp
header window = record {
  doff = 9;
  fin = 0;
  syn = 0;
  rst = 0;
  psh = 0;
  ack = 1;
  urg = 0;
  ece = 0;
  cwr = 0;
  res1 = 0;
  seq = 1;
  ack_seq = 1;
  window = window;
  urg_ptr = 0;
}

abbrev ip : Ipv4
ip = record { version = 4; ihl = 5; tos_byte = 0; tot_len = 58; ttl_byte = 64; protocol = 6 }

abbrev packet : ℕ → LivePacket
packet window = record {
  compared = record {
    headers = ipv4 ip ∷ tcp (header window) ∷ [];
    win_nocheck = false;
    options_nocheck = false;
    tos_chk = tos_check_tos;
    tcp_options_len = 16;
    payload_len = 2;
  };
  ipv4_header =
      some
        (69 ∷ 0 ∷ 0 ∷ 58 ∷ 0 ∷ 0 ∷ 0 ∷ 0 ∷ 64 ∷ 6 ∷ 122 ∷ 191 ∷ 0 ∷ 0 ∷ 0 ∷ 0 ∷ 0 ∷ 0 ∷ 0 ∷ 0 ∷ []);
  flowlabel = none;
  options = some block;
  icmp = false;
  payload = 104 ∷ 105 ∷ [];
  time_usecs = pos 1072;
}

abbrev no_labels : FlowlabelMap
no_labels = record { flowlabel_script = 0; flowlabel_live = 0 }

all_pass :
    Passes ticks mid_run
      (packet_at 2 absolute_time (pos 70))
      no_labels
      (packet 500)
      (packet 500)
      (packet 500)
unfolding verify_outbound_live_checksums verify_outbound_live_headers ◌also◌ check_field only_if
    check_flowlabel check_options is_equal_ip check_event_time ◌+ℤ◌ ◌-ℤ◌ verify_outbound_live_tos
    verify_outbound_live_ttl_or_hl
all_pass = record {
  checksums = refl;
  headers = refl;
  labels = tt;
  options = refl;
  payload = inr refl;
  time = refl;
}

-- The packet that all of this accepts.
accepted :
    (verify_outbound_live_packet ticks true mid_run
      (packet_at 2 absolute_time (pos 70))
      no_labels
      (packet 500)
      (some (packet 500))
      (packet 500)).1
    ≡ some ok
accepted =
    (verify_outbound_live_packet-exact ticks true mid_run (packet_at 2 absolute_time (pos 70))
        no_labels (packet 500) (packet 500) (packet 500)).1
      all_pass

other_window :
    (verify_outbound_live_packet ticks true mid_run
      (packet_at 2 absolute_time (pos 70))
      no_labels
      (packet 500)
      (some (packet 500))
      (packet 501)).1
    ≡ some warn
unfolding verify_outbound_live_packet ◌also◌ check_field only_if verify_outbound_live_tos
    verify_outbound_live_ttl_or_hl
other_window = refl

verify_outbound_live_packet-warns_example :
    ◌≡◌ {A = Bool} true true
    × (verify_outbound_live_checksums (packet 500) ≡ true)
    × ((actual : LivePacket) × (some (packet 500) ≡ some actual)
        × ¬ Passes ticks mid_run
            (packet_at 2 absolute_time (pos 70))
            no_labels
            (packet 500)
            actual
            (packet 501))
verify_outbound_live_packet-warns_example =
    verify_outbound_live_packet-warns ticks true mid_run (packet_at 2 absolute_time (pos 70))
      no_labels (packet 500) (some (packet 500)) (packet 501) other_window
