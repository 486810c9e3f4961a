-- ===== src/Tests/Segments.antt =====
-- A SYN with an option of four bytes and two bytes of payload, and flags that the builder takes or refuses.
use qo_smos.Prelude.{◌+◌, ◌≡◌, refl, [], ◌∷◌, none, some, drop, arith, true, false}
use qo_smos.Packet.{Packet, packet_new}
use qo_smos.Checksum.{tcp_udp_v4_checksum}
use qo_smos.Parser.Outcome.{packet_ok}
use qo_smos.Parser.{parse_packet, packet_layer_3_ip}
use qo_smos.Building.{
  IpInfo, TcpSpec, TcpPacket, new_tcp_packet, flag_byte, is_tcp_flags_spec_valid,
}
use qo_smos.Building.Header.{live_tuple_of, ip_list}
use qo_smos.Address.{af_inet}
use qo_smos.Building.Segment.{finished_tcp, tcp_segment_arrives}

abbrev info : IpInfo
info = record { tos = 0; flow_label = 0; ttl = 64 }

abbrev syn : TcpSpec
syn = record {
  src_port = 1;
  dst_port = 2;
  flags = b'S' ∷ [];
  start_sequence = 123456;
  ack_sequence = 0;
  window = some 32792;
  urg_ptr = 0;
  tcp_options = some (2 ∷ 4 ∷ 5 ∷ 180 ∷ []);
}

abbrev built : TcpPacket
built = elim (new_tcp_packet af_inet true info syn 2) [
  | some t ↦ t
  | none ↦ record { packet = packet_new []; win_nocheck = false; options_nocheck = false }
]

built-eq : new_tcp_packet af_inet true info syn 2 ≡ some built
unfolding new_tcp_packet
built-eq = refl

tcp_segment_arrives_example :
    (p : Packet) × (finished_tcp true info syn 2
        (live_tuple_of 8080 53 (192, 0, 2, 1) (192, 168, 0, 1))
      ≡ some p)
    × (parse_packet (packet_new p.buffer) p.ip_bytes packet_layer_3_ip ≡ (p, packet_ok))
    × (tcp_udp_v4_checksum
          (ip_list (192, 0, 2, 1))
          (ip_list (192, 168, 0, 1))
          6
          (drop 20 p.buffer)
          (20 + 4 + 2)
        ≡ 0)
tcp_segment_arrives_example =
    tcp_segment_arrives true info syn 2 8080 53 (192, 0, 2, 1) (192, 168, 0, 1) built built-eq
      (omega arith) (omega arith) (omega arith) (omega arith, omega arith, omega arith, omega arith)
      (omega arith, omega arith, omega arith, omega arith)
      (omega arith, (omega arith, (omega arith, (omega arith, tt))))

-- The flag C is valid and sets no bit.
no_bit : (is_tcp_flags_spec_valid (b'C' ∷ []) ≡ true) × (flag_byte (b'C' ∷ []) ≡ 0)
unfolding is_tcp_flags_spec_valid flag_byte
no_bit = (refl, refl)

no_such_flag : is_tcp_flags_spec_valid (b'S' ∷ b'X' ∷ []) ≡ false
unfolding is_tcp_flags_spec_valid
no_such_flag = refl

-- A packet that is injected needs a window.
no_window : (new_tcp_packet af_inet true info (record syn { window = none }) 2 ≡ none)
unfolding new_tcp_packet
no_window = refl
