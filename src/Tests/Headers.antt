-- ===== src/Tests/Headers.antt =====
-- Runs of the comparison of packets.
use qo_smos.Prelude.{ℕ, ◌≡◌, ◌↔◌, ◌≢◌, refl, true, false, List, [], ◌∷◌, arith}
use qo_smos.Verify.Fields.{
  status_ok, status_err, aborted, tcp_seq, Ipv4, ipv4, Tcp, tcp, Compared, tos_check_none,
  tos_check_tos,
}
use qo_smos.Verify.{
  verify_tcp, verify_mpls, verify_outbound_live_headers, check_field, only_if, ◌also◌,
  tcp_options_allowance, verify_layers, verify_header, has_layer, is_ip, is_above_ip,
  verify_outbound_live_tos, verify_outbound_live_ttl_or_hl,
}
use qo_smos.Verify.Exact.{verify_tcp-exact, verify_mpls-ok}
use qo_smos.Verify.Same.{SameLayers, verify_outbound_live_headers-exact}
use qo_smos.Verify.Flowlabel.{
  FlowlabelMap, verify_outbound_live_ipv6_flowlabel, flowlabel-consistent,
}

abbrev segment : Tcp
segment = record {
  doff = 5;
  fin = 0;
  syn = 0;
  rst = 0;
  psh = 1;
  ack = 1;
  urg = 0;
  ece = 0;
  cwr = 0;
  res1 = 0;
  seq = 1;
  ack_seq = 1;
  window = 257;
  urg_ptr = 0;
}

abbrev ip : Ipv4
ip = record { version = 4; ihl = 5; tos_byte = 0; tot_len = 40; ttl_byte = 64; protocol = 6 }

abbrev packet : Compared
packet = record {
  headers = ipv4 ip ∷ tcp segment ∷ [];
  win_nocheck = false;
  options_nocheck = false;
  tos_chk = tos_check_none;
  tcp_options_len = 0;
  payload_len = 0;
}

abbrev late : Compared
late = record packet { headers = ipv4 ip ∷ tcp (record segment { seq = 2 }) ∷ [] }

-- A packet without an IP header fails the first assert.
no_ip :
    verify_outbound_live_headers (record packet { headers = tcp segment ∷ [] }) packet true
    ≡ aborted
unfolding verify_outbound_live_headers ◌also◌
no_ip = refl

compared_packets :
    (verify_outbound_live_headers packet packet true ≡ status_ok)
    × (verify_outbound_live_headers late packet true ≡ status_err tcp_seq)
unfolding verify_outbound_live_headers verify_layers verify_header verify_tcp check_field only_if
    ◌also◌ tcp_options_allowance verify_outbound_live_tos verify_outbound_live_ttl_or_hl
compared_packets = (refl, refl)

verify_tcp-exact_example :
    (verify_tcp packet packet true segment segment ≡ status_ok) ↔ (segment ≡ segment)
verify_tcp-exact_example = verify_tcp-exact packet packet refl refl segment segment

abbrev two_labels : List ℕ
two_labels = 0x10000 ∷ 0x20100 ∷ []

abbrev other_labels : List ℕ
other_labels = 0x10000 ∷ 0x30100 ∷ []

compared_labels : (verify_mpls two_labels other_labels ≡ status_ok) ↔ (two_labels ≡ other_labels)
compared_labels = verify_mpls-ok two_labels other_labels

abbrev live_label : ℕ
live_label = 78

abbrev script_label : ℕ
script_label = 2

abbrev labels : FlowlabelMap
labels = record { flowlabel_script = 1; flowlabel_live = 77 }

flowlabel-consistent_example :
    (verify_outbound_live_ipv6_flowlabel labels script_label live_label
      ≡ (record { flowlabel_script = script_label; flowlabel_live = live_label }, status_ok))
    ↔ ((live_label ≢ 0)
        × ((script_label ≡ labels.flowlabel_script) ↔ (live_label ≡ labels.flowlabel_live)))
flowlabel-consistent_example =
    flowlabel-consistent labels script_label live_label (omega arith) (omega arith)

abbrev whole : Compared
whole = record packet { tos_chk = tos_check_tos }

verify_outbound_live_headers-exact_example :
    (verify_outbound_live_headers whole whole true ≡ status_ok) ↔ (
      (has_layer is_ip whole.headers ≡ true)
      × (has_layer is_above_ip whole.headers ≡ true)
      × SameLayers whole.headers whole.headers)
verify_outbound_live_headers-exact_example =
    verify_outbound_live_headers-exact whole whole refl refl refl
