-- ===== src/Tests/Datagrams.antt =====
-- A UDP datagram of three bytes of payload, and the largest sizes.
use qo_smos.Prelude.{◌+◌, ◌≡◌, refl, [], ◌∷◌, none, some, drop, arith}
use qo_smos.Packet.{Packet, packet_new}
use qo_smos.Checksum.{tcp_udp_v4_checksum}
use qo_smos.Parser.Outcome.{packet_ok}
use qo_smos.Parser.{parse_packet, packet_layer_3_ip}
use qo_smos.Building.{IpInfo, set_ipv4_header, new_udp_packet}
use qo_smos.Address.{af_inet}
use qo_smos.Socket.{Tuple}
use qo_smos.Building.Header.{ip_list}
use qo_smos.Building.Datagram.{finished_udp, udp_datagram_arrives}

abbrev info : IpInfo
info = record { tos = 0; flow_label = 0; ttl = 64 }

abbrev live : Tuple
live = record {
  src = record { ip = 192 ∷ 0 ∷ 2 ∷ 1 ∷ []; port = 8080 };
  dst = record { ip = 192 ∷ 168 ∷ 0 ∷ 1 ∷ []; port = 53 };
}

udp_datagram_arrives_example :
    (p : Packet) × (finished_udp info 3 1 2 live ≡ some p)
    × (parse_packet (packet_new p.buffer) p.ip_bytes packet_layer_3_ip ≡ (p, packet_ok))
    × (tcp_udp_v4_checksum
          (ip_list (192, 0, 2, 1))
          (ip_list (192, 168, 0, 1))
          17
          (drop 20 p.buffer)
          (8 + 3)
        ≡ 0)
udp_datagram_arrives_example =
    udp_datagram_arrives info 3 1 2 8080 53 (192, 0, 2, 1) (192, 168, 0, 1) (omega arith)
      (omega arith) (omega arith) (omega arith, omega arith, omega arith, omega arith)
      (omega arith, omega arith, omega arith, omega arith)

-- The limit of 64 * 1024 bytes lets a size pass that the length field has as zero.
no_length :
    set_ipv4_header 65536 0 64 17 []
    ≡ 0x45 ∷ 0 ∷ 0 ∷ 0 ∷ 0 ∷ 0 ∷ 0 ∷ 0 ∷ 64 ∷ 17 ∷ 0 ∷ 0 ∷ 0 ∷ 0 ∷ 0 ∷ 0 ∷ 0 ∷ 0 ∷ 0 ∷ 0 ∷ []
unfolding set_ipv4_header
no_length = refl

too_large : new_udp_packet af_inet info 65509 8080 53 ≡ none
unfolding new_udp_packet
too_large = refl
