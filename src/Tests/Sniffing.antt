-- ===== src/Tests/Sniffing.antt =====
-- Runs of the sniffing of a script's packet.
use qo_smos.Prelude.{ℕ, ◌+◌, ◌≡◌, refl, true, false, List, [], ◌∷◌, none, some, map}
use qo_smos.Socket.{Endpoint, Tuple, SocketState, Socket, passive_synack_acked}
use qo_smos.Socket.Creation.{Run}
use qo_smos.Verify.Fields.{tos_check_none, ipv4, Ipv4, tcp, Tcp}
use qo_smos.Verify.{
  ◌also◌, verify_outbound_live_headers, check_field, only_if, verify_outbound_live_tos,
  verify_outbound_live_ttl_or_hl,
}
use qo_smos.Outbound.{Live, Settings, Outcome, matched, sniff_script_packet}
use qo_smos.Outbound.Loop.{Ended, sniff_script_packet-Ended}

abbrev here : Endpoint
here = record { ip = 192 ∷ 168 ∷ 0 ∷ 1 ∷ []; port = 8080 }

abbrev there : Endpoint
there = record { ip = 192 ∷ 0 ∷ 2 ∷ 1 ∷ []; port = 40000 }

abbrev numbers : SocketState
numbers = record { local = here; local_isn = 0; remote = there; remote_isn = 0 }

abbrev a_socket : Socket
a_socket = record { state = passive_synack_acked; protocol = 6; script = numbers; live = numbers }

abbrev a_run : Run
a_run = record {
  config = record {
    is_wire_server = true;
    live_remote_ip = there.ip;
    live_local_ip = here.ip;
    live_bind_port = 8080;
    live_connect_port = 8080;
  };
  socket_under_test = some a_socket;
  next_ephemeral_port = none;
}

abbrev header_at : ℕ → Tcp
header_at seq = record {
  doff = 5;
  fin = 0;
  syn = 0;
  rst = 0;
  psh = 0;
  ack = 1;
  urg = 0;
  ece = 0;
  cwr = 0;
  res1 = 0;
  seq = seq;
  ack_seq = 1;
  window = 500;
  urg_ptr = 0;
}

abbrev ip_of : ℕ → Ipv4
ip_of bytes = record {
  version = 4;
  ihl = 5;
  tos_byte = 0;
  tot_len = 40 + bytes;
  ttl_byte = 64;
  protocol = 6;
}

-- A packet of a number of bytes behind a sequence number, without options.
abbrev segment : Tuple → ℕ → ℕ → Live
segment tuple at bytes = record {
  seen = record {
    tuple = tuple;
    protocol = 6;
    tcp = some (record { syn = false; ack = true; seq = at; ack_seq = 1 });
    udp = false;
    icmpv4 = false;
    icmpv6 = false;
  };
  compared = record {
    headers = ipv4 (ip_of bytes) ∷ tcp (header_at at) ∷ [];
    win_nocheck = false;
    options_nocheck = false;
    tos_chk = tos_check_none;
    tcp_options_len = 0;
    payload_len = bytes;
  };
  buffer = [];
  options_start = 40;
  options_end = 40;
}

abbrev outgoing : Tuple
outgoing = record { src = here; dst = there }

abbrev incoming : Tuple
incoming = record { src = there; dst = here }

abbrev aggregating : Settings
aggregating = record { strict_segments = true; is_wire_server = true }

-- Two fragments of 1000 bytes, a packet of the other end between them, and a last one of 500 bytes
abbrev device : List Live
device =
    segment outgoing 1 1000
    ∷ segment incoming 7 10
    ∷ segment outgoing 1001 1000
    ∷ segment outgoing 2001 500
    ∷ segment outgoing 2501 1
    ∷ []

abbrev sizes : Outcome → List ℕ
sizes (matched run packets) = map (λ p. p.compared.payload_len) packets
sizes _ = []

three_fragments :
    sizes (sniff_script_packet aggregating a_run a_socket (segment outgoing 1 2500) device)
    ≡ 1000 ∷ 1000 ∷ 500 ∷ []
unfolding sniff_script_packet ◌also◌ verify_outbound_live_headers check_field only_if
    verify_outbound_live_tos verify_outbound_live_ttl_or_hl
three_fragments = refl

sniff_script_packet-Ended_example :
    Ended 2500 (sniff_script_packet aggregating a_run a_socket (segment outgoing 1 2500) device)
sniff_script_packet-Ended_example =
    sniff_script_packet-Ended aggregating a_run a_socket (segment outgoing 1 2500) device
