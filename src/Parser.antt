-- ===== src/Parser.antt =====
-- The parser of app/src/main/cpp/packet_parser.c: Ethernet, IPv4, IPv6, MPLS, GRE, TCP, UDP, ICMP.
-- A read past the buffer, a failed assert and the end of the fuel are outcomes of their own, which
-- `Safety` deals with. The debug prints and the hex dump in the message are left out.
pub mod Outcome
pub mod Checks
pub mod Layer4
pub mod Rules
pub mod Guards
pub mod Rows
pub mod Endings
pub mod Safety
pub mod Packets
pub mod Tunnel
pub mod Refusals
pub mod Accepts
pub mod Accepted
use qo_smos.Prelude.{
  ℕ, zero, suc, ◌+◌, ◌-◌, ◌*◌, ◌/◌, ◌%◌, ◌^◌, Bool, true, false, ◌||◌, List, Option, none, some,
  ltb, leb, ◌==◌, if◌then◌else◌,
}
use qo_smos.Packet.{Packet, header_ipv4, header_ipv6, header_gre, header_mpls}
use Outcome.{
  Result, packet_ok, packet_bad, packet_unknown_l4, assert_failed, out_of_fuel, Checked, pass, halt,
  Reason, Parsed, read8, read16,
}
use Checks.{Extent, check_ipv4, check_ipv6, check_gre, check_mpls, check_layer3}
use Layer4.{append, parse_tcp, parse_udp, parse_icmpv4, parse_icmpv6}

-- The entries of the parser that a nested header comes back to.
pub data Entry : Type 0 where
  layer3 ipv4 ipv6 mpls : Entry
  by_proto : ℕ → Entry

-- A parser of the headers inside, at an offset.
abbrev pub Inner : Type 0
Inner = Entry → Packet → ℕ → Parsed

-- The last lines of `parse_ipv4` and of `parse_ipv6`: the innermost header is the primary one,
-- and the outermost gives the packet's length.
abbrev pub no_ip : Packet → Bool
no_ip p = elim p.ipv4 [ some o ↦ false | none ↦ elim p.ipv6 [ some o ↦ false | none ↦ true ] ]

unfoldable pub finish_ipv4 : Bool → ℕ → ℕ → Parsed → Parsed
finish_ipv4 is_outer offset total (packet, result) =
    let primary = if no_ip packet then record packet { ipv4 = some offset } else packet in
    (if is_outer then record primary { ip_bytes = total } else primary, result)

unfoldable pub finish_ipv6 : Bool → ℕ → ℕ → Parsed → Parsed
finish_ipv6 is_outer offset total (packet, result) =
    let primary = if no_ip packet then record packet { ipv6 = some offset } else packet in
    (if is_outer then record primary { ip_bytes = total } else primary, result)

-- The C functions share `packet_end`, the offset of the byte beyond the packet.
module _ (inner : Inner) (packet_end : ℕ) where
  unfoldable pub parse_gre : Packet → ℕ → ℕ → Parsed
  unfolding check_gre append
  parse_gre packet layer4_start layer4_bytes =
      elim (check_gre packet.buffer layer4_start layer4_bytes packet_end) [
        | halt r ↦ (packet, r)
        | pass (header_len, proto) ↦
            append packet header_gre header_len layer4_bytes Reason.too_many_headers_gre
              (λ packet'. inner (by_proto proto) packet' (layer4_start + header_len))
      ]

  unfoldable pub parse_layer4 : Packet → ℕ → ℕ → ℕ → Parsed
  unfolding parse_tcp parse_udp parse_icmpv4 parse_icmpv6 parse_gre
  parse_layer4 packet layer4_start protocol layer4_bytes =
      if protocol == 6
      then parse_tcp packet_end packet layer4_start layer4_bytes
      else if protocol == 17
      then parse_udp packet_end packet layer4_start layer4_bytes
      else if protocol == 1
      then parse_icmpv4 packet_end packet layer4_start layer4_bytes
      else if protocol == 58
      then parse_icmpv6 packet_end packet layer4_start layer4_bytes
      else if protocol == 47
      then parse_gre packet layer4_start layer4_bytes
      else if protocol == 4
      then inner ipv4 packet layer4_start
      else if protocol == 41
      then inner ipv6 packet layer4_start
      else (packet, packet_unknown_l4)

  unfoldable pub parse_ipv4 : Packet → ℕ → Parsed
  unfolding check_ipv4 append parse_layer4 finish_ipv4
  parse_ipv4 packet header_start = elim (check_ipv4 packet.buffer header_start packet_end) [
    | halt r ↦ (packet, r)
    | pass x ↦ append packet header_ipv4 x.header x.total Reason.too_many_headers_ipv4 (λ packet'.
        finish_ipv4 (packet.ip_bytes == 0) header_start x.total
          (parse_layer4 packet' (header_start + x.header) x.protocol (x.total - x.header)))
  ]

  unfoldable pub parse_ipv6 : Packet → ℕ → Parsed
  unfolding check_ipv6 append parse_layer4 finish_ipv6
  parse_ipv6 packet header_start = elim (check_ipv6 packet.buffer header_start packet_end) [
    | halt r ↦ (packet, r)
    | pass x ↦ append packet header_ipv6 x.header x.total Reason.too_many_headers_ipv6 (λ packet'.
        finish_ipv6 (packet.ip_bytes == 0) header_start x.total
          (parse_layer4 packet' (header_start + x.header) x.protocol (x.total - x.header)))
  ]

  unfoldable pub parse_mpls : Packet → ℕ → Parsed
  unfolding check_mpls append
  parse_mpls packet header_start = elim (check_mpls packet.buffer header_start packet_end) [
    | halt r ↦ (packet, r)
    | pass after ↦
        append packet header_mpls (after - header_start) (packet_end - header_start)
          Reason.too_many_headers_mpls (λ packet'. inner layer3 packet' after)
  ]

  unfoldable pub parse_layer3_packet : Packet → ℕ → Parsed
  unfolding check_layer3 parse_ipv4 parse_ipv6
  parse_layer3_packet packet p =
      elim (check_layer3 packet.buffer p packet_end 20 Reason.ip_header_overflows) [
        | halt r ↦ (packet, r)
        | pass version ↦
            if version == 4
            then parse_ipv4 packet p
            else if version == 6
            then parse_ipv6 packet p
            else (packet, packet_bad Reason.unsupported_ip_version)
      ]

  unfoldable pub parse_layer3_packet_by_proto : Packet → ℕ → ℕ → Parsed
  unfolding check_layer3 parse_ipv4 parse_ipv6 parse_mpls
  parse_layer3_packet_by_proto packet proto p =
      if proto == 0x0800
      then elim (check_layer3 packet.buffer p packet_end 20 Reason.ipv4_header_overflows) [
        | halt r ↦ (packet, r)
        | pass version ↦
            if version == 4
            then parse_ipv4 packet p
            else (packet, packet_bad Reason.bad_version_for_ip)
      ]
      else if proto == 0x86dd
      then elim (check_layer3 packet.buffer p packet_end 40 Reason.ipv6_header_overflows) [
        | halt r ↦ (packet, r)
        | pass version ↦
            if version == 6
            then parse_ipv6 packet p
            else (packet, packet_bad Reason.bad_version_for_ipv6)
      ]
      else if (proto == 0x8847) || (proto == 0x8848)
      then parse_mpls packet p
      else (packet, packet_unknown_l4)

  unfoldable pub parse_entry : Entry → Packet → ℕ → Parsed
  unfolding parse_layer3_packet parse_layer3_packet_by_proto
  parse_entry layer3 packet p = parse_layer3_packet packet p
  parse_entry ipv4 packet p = parse_ipv4 packet p
  parse_entry ipv6 packet p = parse_ipv6 packet p
  parse_entry mpls packet p = parse_mpls packet p
  parse_entry (by_proto proto) packet p = parse_layer3_packet_by_proto packet proto p

-- Each nesting has appended a header, so that `Safety` bounds the fuel by the room for headers.
unfoldable pub parse : ℕ → ℕ → Inner
unfolding parse_entry
parse zero packet_end entry packet p = (packet, out_of_fuel)
parse (suc fuel) packet_end entry packet p =
    parse_entry (parse fuel packet_end) packet_end entry packet p

pub data PacketLayer : Type 0 where
  packet_layer_3_ip packet_layer_2_ethernet : PacketLayer

unfoldable pub parse_layer2_packet : ℕ → ℕ → Packet → Parsed
unfolding parse
parse_layer2_packet fuel packet_end packet =
    if ltb packet_end 14
    then (packet, packet_bad Reason.ethernet_header_overflows)
    else elim (read16 packet.buffer 12) [
      | halt r ↦ (record packet { l2_header_bytes = 14 }, r)
      | pass ether_type ↦
          parse fuel packet_end (by_proto ether_type) (record packet { l2_header_bytes = 14 }) 14
    ]

unfoldable pub parse_packet : Packet → ℕ → PacketLayer → Parsed
unfolding parse_layer2_packet parse
parse_packet packet in_bytes layer =
    if leb in_bytes packet.buffer_bytes
    then elim layer [
      | packet_layer_2_ethernet ↦ parse_layer2_packet 7 in_bytes packet
      | packet_layer_3_ip ↦ parse 7 in_bytes layer3 packet 0
    ]
    else (packet, assert_failed)
