-- ===== src/Tests/Sockets.antt =====
-- Runs of the socket under test.
use qo_smos.Prelude.{◌≡◌, ◌≢◌, ◌↔◌, refl, true, false, [], ◌∷◌, some, arith}
use qo_smos.Prelude.Words.{add32}
use qo_smos.Socket.{
  Endpoint, SocketState, Socket, TcpInfo, Seen, direction_inbound, direction_outbound,
  passive_listening, passive_synack_acked, find_socket_for_live_packet, is_icmp_of,
  socket_get_inbound, reverse_tuple, map_inbound_seq, tcp_convert_seq_number, inbound_step,
}
use qo_smos.Socket.Creation.{Run, handle_listen_for_script_packet}
use qo_smos.Socket.Sequence.{HasWords, kernel_stream_lem}
use qo_smos.Socket.Matching.{find_socket-exact}
use qo_smos.Socket.Handshake.{Established, passive_run, passive_handshake_lem}

abbrev near : Endpoint
near = record { ip = 192 ∷ 168 ∷ 0 ∷ 1 ∷ []; port = 8080 }

abbrev far : Endpoint
far = record { ip = 192 ∷ 0 ∷ 2 ∷ 1 ∷ []; port = 40000 }

abbrev live : SocketState
live = record { local = near; local_isn = 4294967290; remote = far; remote_isn = 5 }

abbrev script : SocketState
script = record { local = near; local_isn = 0; remote = far; remote_isn = 5 }

abbrev established : Socket
established = record { state = passive_synack_acked; protocol = 6; script = script; live = live }

abbrev listening : Socket
listening = record established { state = passive_listening }

abbrev run : Run
run = record {
  config = record {
    is_wire_server = false;
    live_remote_ip = far.ip;
    live_local_ip = near.ip;
    live_bind_port = 8080;
    live_connect_port = 8080;
  };
  socket_under_test = some listening;
  next_ephemeral_port = some 40000;
}

abbrev syn : TcpInfo
syn = record { syn = true; ack = false; seq = 4294967290; ack_seq = 0 }

abbrev synack : TcpInfo
synack = record { syn = true; ack = true; seq = 0; ack_seq = 1 }

abbrev injected : TcpInfo
injected = record { syn = false; ack = true; seq = 1; ack_seq = 10 }

-- Ten bytes behind the kernel's initial number, round the end of the words
abbrev sent : TcpInfo
sent = record { syn = false; ack = true; seq = 4; ack_seq = 6 }

abbrev seen : Seen
seen = record {
  tuple = record { src = near; dst = far };
  protocol = 6;
  tcp = some sent;
  udp = false;
  icmpv4 = false;
  icmpv6 = false;
}

established-HasWords : HasWords established
established-HasWords = record {
  live_local = omega arith;
  live_remote = omega arith;
  script_local = omega arith;
}

not_icmp : is_icmp_of established seen ≡ false
unfolding is_icmp_of
not_icmp = refl

kernel_stream_lem_example :
    ((tcp_convert_seq_number established syn).seq ≡ 0)
    × ((tcp_convert_seq_number established sent).seq ≡ 10)
    × ((map_inbound_seq established injected).ack_seq ≡ add32 4294967290 10)
kernel_stream_lem_example =
    kernel_stream_lem established established-HasWords 10 syn sent injected (omega arith) refl refl
      refl refl refl refl refl

find_socket-exact_example :
    ((find_socket_for_live_packet (some established) seen ≡ some direction_inbound)
      ↔ (seen.tuple ≡ socket_get_inbound live))
    × ((find_socket_for_live_packet (some established) seen ≡ some direction_outbound) ↔ (
        (seen.tuple ≡ reverse_tuple (socket_get_inbound live))
        × (seen.tuple ≢ socket_get_inbound live)))
find_socket-exact_example = find_socket-exact established seen not_icmp

abbrev after_ack : Socket
after_ack = inbound_step established (some injected)

passive_handshake_lem_example :
    (created : Socket) × (run' : Run) × (handle_listen_for_script_packet 1 run seen syn
        direction_inbound
      ≡ some run')
    × (run'.socket_under_test ≡ some created)
    × Established run.config syn synack sent (passive_run created synack sent injected)
passive_handshake_lem_example =
    passive_handshake_lem seen syn synack sent injected 1 run listening refl refl refl refl refl
      refl
