-- ===== src/Tests/Frames.antt =====
-- Runs of the parser.
use qo_smos.Prelude.{ℕ, ◌≡◌, refl, List, [], ◌∷◌, arith, length}
use qo_smos.Packet.{packet_new, packet_append_header, set_total_bytes}
use qo_smos.Checksum.{ipv4_checksum}
use qo_smos.Parser.Outcome.{
  overread, packet_ok, ip_header_overflows, pass, ◌>>=◌, refuse, assert, read8, read16, Parsed,
}
use qo_smos.Parser.Checks.{Extent, check_ipv4, check_layer3, read_bytes}
use qo_smos.Parser.Layer4.{append, parse_udp, check_udp}
use qo_smos.Parser.{
  parse, parse_entry, parse_layer3_packet, parse_ipv4, parse_layer4, finish_ipv4, parse_packet,
  packet_layer_3_ip,
}
use qo_smos.Prelude.{true}
use qo_smos.Parser.Accepts.{has_layer3, has_layer4}
use qo_smos.Parser.Accepted.{parse_packet-has_layers}
use qo_smos.Parser.Packets.{IsSound, parse_packet-IsSound}
use qo_smos.Parser.Tunnel.{parse_packet-overread}

-- A datagram of 20 bytes that says it carries IPv4
abbrev tunnel : List ℕ
tunnel = 69 ∷ 0 ∷ 0 ∷ 20 ∷ 0 ∷ 0 ∷ 0 ∷ 0 ∷ 64 ∷ 4 ∷ 102 ∷ 228 ∷ 10 ∷ 0 ∷ 0 ∷ 1 ∷ 10 ∷ 0 ∷ 0 ∷ 2 ∷ []

-- UDP with one byte of payload
abbrev datagram : List ℕ
datagram =
    69 ∷ 0 ∷ 0 ∷ 29 ∷ 0 ∷ 0 ∷ 0 ∷ 0 ∷ 64 ∷ 17 ∷ 102 ∷ 206 ∷ 10 ∷ 0 ∷ 0 ∷ 1 ∷ 10 ∷ 0 ∷ 0 ∷ 2 ∷ 0 ∷ 53
    ∷ 0 ∷ 53 ∷ 0 ∷ 9 ∷ 0 ∷ 0 ∷ 65 ∷ []

abbrev parsed : Parsed
parsed = parse_packet (packet_new datagram) 29 packet_layer_3_ip

datagram_parses : (parsed.1 ≡ packet_ok) × (length parsed.0.headers ≡ 2) × (parsed.0.ip_bytes ≡ 29)
unfolding parse_packet packet_new parse parse_entry parse_layer3_packet check_layer3 parse_ipv4
    check_ipv4 ipv4_checksum read_bytes append packet_append_header set_total_bytes parse_layer4
    parse_udp check_udp finish_ipv4 ◌>>=◌ refuse assert read8 read16
datagram_parses = (refl, refl, refl)

parse_packet-IsSound_example :
    IsSound datagram 29 (parse_packet (packet_new datagram) 29 packet_layer_3_ip)
parse_packet-IsSound_example = parse_packet-IsSound datagram 29 packet_layer_3_ip (omega arith)

abbrev outer_extent : Extent
outer_extent = record { header = 20; total = 20; protocol = 4 }

tunnel_version : check_layer3 tunnel 0 20 20 ip_header_overflows ≡ pass 4
unfolding check_layer3 ◌>>=◌ refuse read8
tunnel_version = refl

tunnel_checks : check_ipv4 tunnel 0 20 ≡ pass outer_extent
unfolding check_ipv4 ipv4_checksum read_bytes ◌>>=◌ refuse assert read8 read16
tunnel_checks = refl

parse_packet-overread_example : (parse_packet (packet_new tunnel) 20 packet_layer_3_ip).1 ≡ overread
parse_packet-overread_example =
    parse_packet-overread tunnel outer_extent tunnel_version tunnel_checks refl refl

parse_packet-has_layers_example : (has_layer3 parsed.0 ≡ true) × (has_layer4 parsed.0 ≡ true)
parse_packet-has_layers_example =
    parse_packet-has_layers (packet_new datagram) 29 packet_layer_3_ip datagram_parses.0
