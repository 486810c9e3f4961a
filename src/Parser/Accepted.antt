-- ===== src/Parser/Accepted.antt =====
-- What PACKET_OK promises, through all the nesting.
use qo_smos.Prelude.{ℕ, zero, suc, ◌+◌, ◌-◌, ◌≡◌, ap, refl, Bool, true, ◌||◌, arith, leb, ltb, ◌==◌}
use qo_smos.Packet.{Packet, header_ipv4, header_ipv6, header_gre, header_mpls}
use qo_smos.Parser.Outcome.{packet_ok, Reason, Parsed}
use qo_smos.Parser.Layer4.{append}
use qo_smos.Parser.Refusals.{
  is_ok, read16-Refuses, check_ipv4-Refuses, check_ipv6-Refuses, check_layer3-Refuses,
  check_gre-Refuses, check_mpls-Refuses,
}
use qo_smos.Parser.{
  Entry, layer3, ipv4, ipv6, mpls, by_proto, Inner, parse_gre, parse_layer4, finish_ipv4,
  finish_ipv6, parse_ipv4, parse_ipv6, parse_mpls, parse_layer3_packet,
  parse_layer3_packet_by_proto, parse_entry, parse, parse_layer2_packet, parse_packet, PacketLayer,
  packet_layer_3_ip, packet_layer_2_ethernet,
}
use qo_smos.Parser.Accepts.{
  has_layer3, has_layer4, HasLayer4, HasBoth, Accepts, refused, after-Accepts, append-Accepts,
  choose-Accepts, parse_tcp-Accepts, parse_udp-Accepts, parse_icmpv4-Accepts, parse_icmpv6-Accepts,
}

-- The last lines of the IP parsers give the packet its primary IP header.
finish_ipv4-Accepts :
    (is_outer : Bool) (offset total : ℕ) (out : Parsed)
    → Accepts HasLayer4 out
    → Accepts HasBoth (finish_ipv4 is_outer offset total out)
unfolding finish_ipv4
finish_ipv4-Accepts is_outer offset total out h = record {
  accepted = λ ok. (ground arith, ground (arith, h.accepted (ground (arith, ok))));
}

finish_ipv6-Accepts :
    (is_outer : Bool) (offset total : ℕ) (out : Parsed)
    → Accepts HasLayer4 out
    → Accepts HasBoth (finish_ipv6 is_outer offset total out)
unfolding finish_ipv6
finish_ipv6-Accepts is_outer offset total out h = record {
  accepted = λ ok. (ground arith, ground (arith, h.accepted (ground (arith, ok))));
}

layer4_of_both : {out : Parsed} → Accepts HasBoth out → Accepts HasLayer4 out
layer4_of_both h = record { accepted = λ ok. (h.accepted ok).1 }

module _ (inner : Inner) (packet_end : ℕ)
    (ih : (entry : Entry) (q : Packet) (p : ℕ) → Accepts HasBoth (inner entry q p)) where
  parse_gre-Accepts :
      (packet : Packet) (start bytes : ℕ)
      → Accepts HasBoth (parse_gre inner packet_end packet start bytes)
  unfolding parse_gre
  parse_gre-Accepts packet start bytes =
      after-Accepts packet
        (λ x.
          append packet header_gre x.0 bytes Reason.too_many_headers_gre
            (λ packet'. inner (by_proto x.1) packet' (start + x.0)))
        (check_gre-Refuses _ _ _ _)
        (λ x.
          append-Accepts packet header_gre x.0 bytes _ (λ q. inner (by_proto x.1) q (start + x.0))
            (λ q e. ih (by_proto x.1) q (start + x.0)))

  parse_layer4-Accepts :
      (packet : Packet) (start protocol bytes : ℕ)
      → Accepts HasLayer4 (parse_layer4 inner packet_end packet start protocol bytes)
  unfolding parse_layer4
  parse_layer4-Accepts packet start protocol bytes =
      choose-Accepts (protocol == 6) (parse_tcp-Accepts packet_end packet start bytes) (
        choose-Accepts (protocol == 17) (parse_udp-Accepts packet_end packet start bytes) (
          choose-Accepts (protocol == 1) (parse_icmpv4-Accepts packet_end packet start bytes) (
            choose-Accepts (protocol == 58) (parse_icmpv6-Accepts packet_end packet start bytes) (
              choose-Accepts (protocol == 47)
                (layer4_of_both (parse_gre-Accepts packet start bytes))
                (choose-Accepts (protocol == 4) (layer4_of_both (ih ipv4 packet start)) (
                  choose-Accepts (protocol == 41) (layer4_of_both (ih ipv6 packet start))
                    (refused packet _ refl)))))))

  module _ (packet : Packet) (p : ℕ) where
    parse_ipv4-Accepts : Accepts HasBoth (parse_ipv4 inner packet_end packet p)
    unfolding parse_ipv4
    parse_ipv4-Accepts = after-Accepts packet _ (check_ipv4-Refuses _ _ _) (λ x.
        append-Accepts packet header_ipv4 x.header x.total _
          (λ q.
            finish_ipv4 (packet.ip_bytes == 0) p x.total
              (parse_layer4 inner packet_end q (p + x.header) x.protocol (x.total - x.header)))
          (λ q e.
            finish_ipv4-Accepts (packet.ip_bytes == 0) p x.total _
              (parse_layer4-Accepts q (p + x.header) x.protocol (x.total - x.header))))

    parse_ipv6-Accepts : Accepts HasBoth (parse_ipv6 inner packet_end packet p)
    unfolding parse_ipv6
    parse_ipv6-Accepts = after-Accepts packet _ (check_ipv6-Refuses _ _ _) (λ x.
        append-Accepts packet header_ipv6 x.header x.total _
          (λ q.
            finish_ipv6 (packet.ip_bytes == 0) p x.total
              (parse_layer4 inner packet_end q (p + x.header) x.protocol (x.total - x.header)))
          (λ q e.
            finish_ipv6-Accepts (packet.ip_bytes == 0) p x.total _
              (parse_layer4-Accepts q (p + x.header) x.protocol (x.total - x.header))))

    parse_mpls-Accepts : Accepts HasBoth (parse_mpls inner packet_end packet p)
    unfolding parse_mpls
    parse_mpls-Accepts = after-Accepts packet _ (check_mpls-Refuses _ _ _) (λ after.
        append-Accepts packet header_mpls (after - p) (packet_end - p) _ (λ q. inner layer3 q after)
          (λ q e. ih layer3 q after))

    parse_layer3-Accepts : Accepts HasBoth (parse_layer3_packet inner packet_end packet p)
    unfolding parse_layer3_packet
    parse_layer3-Accepts = after-Accepts packet _ (check_layer3-Refuses _ _ _ _ _) (λ version.
        choose-Accepts (version == 4) parse_ipv4-Accepts
          (choose-Accepts (version == 6) parse_ipv6-Accepts (refused packet _ refl)))

    parse_by_proto-Accepts :
        (proto : ℕ) → Accepts HasBoth (parse_layer3_packet_by_proto inner packet_end packet proto p)
    unfolding parse_layer3_packet_by_proto
    parse_by_proto-Accepts proto =
        choose-Accepts (proto == 0x0800)
          (after-Accepts packet _ (check_layer3-Refuses _ _ _ _ _)
            (λ version. choose-Accepts (version == 4) parse_ipv4-Accepts (refused packet _ refl)))
          (choose-Accepts (proto == 0x86dd)
            (after-Accepts packet _ (check_layer3-Refuses _ _ _ _ _)
              (λ version. choose-Accepts (version == 6) parse_ipv6-Accepts (refused packet _ refl)))
            (choose-Accepts ((proto == 0x8847) || (proto == 0x8848)) parse_mpls-Accepts
              (refused packet _ refl)))

    parse_entry-Accepts :
        (entry : Entry) → Accepts HasBoth (parse_entry inner packet_end entry packet p)
    unfolding parse_entry
    parse_entry-Accepts layer3 = parse_layer3-Accepts
    parse_entry-Accepts ipv4 = parse_ipv4-Accepts
    parse_entry-Accepts ipv6 = parse_ipv6-Accepts
    parse_entry-Accepts mpls = parse_mpls-Accepts
    parse_entry-Accepts (by_proto proto) = parse_by_proto-Accepts proto

parse-Accepts :
    (fuel packet_end : ℕ) (entry : Entry) (packet : Packet) (p : ℕ)
    → Accepts HasBoth (parse fuel packet_end entry packet p)
unfolding parse
parse-Accepts zero packet_end entry packet p = refused packet _ refl
parse-Accepts (suc fuel) packet_end entry packet p =
    parse_entry-Accepts (parse fuel packet_end) packet_end (parse-Accepts fuel packet_end) packet p
      entry

parse_layer2-Accepts :
    (fuel packet_end : ℕ) (packet : Packet)
    → Accepts HasBoth (parse_layer2_packet fuel packet_end packet)
unfolding parse_layer2_packet
parse_layer2-Accepts fuel packet_end packet =
    choose-Accepts (ltb packet_end 14) (refused packet _ refl) (
      after-Accepts _ _ (read16-Refuses _ _)
        (λ ether_type. parse-Accepts fuel packet_end (by_proto ether_type) _ 14))

parse_packet-Accepts :
    (packet : Packet) (in_bytes : ℕ) (layer : PacketLayer)
    → Accepts HasBoth (parse_packet packet in_bytes layer)
unfolding parse_packet
parse_packet-Accepts packet in_bytes packet_layer_3_ip =
    choose-Accepts (leb in_bytes packet.buffer_bytes) (parse-Accepts 7 in_bytes layer3 packet 0)
      (refused packet _ refl)
parse_packet-Accepts packet in_bytes packet_layer_2_ethernet =
    choose-Accepts (leb in_bytes packet.buffer_bytes) (parse_layer2-Accepts 7 in_bytes packet)
      (refused packet _ refl)

-- A packet that `parse_packet` accepts with PACKET_OK has an IPv4 or IPv6 header and a TCP, UDP or
-- ICMP header, through any nesting: the two conditions that `verify_outbound_live_headers` asserts.
pub parse_packet-has_layers :
    (packet : Packet) (in_bytes : ℕ) (layer : PacketLayer)
    → (parse_packet packet in_bytes layer).1 ≡ packet_ok
    → (has_layer3 (parse_packet packet in_bytes layer).0 ≡ true)
      × (has_layer4 (parse_packet packet in_bytes layer).0 ≡ true)
parse_packet-has_layers packet in_bytes layer ok =
    (parse_packet-Accepts packet in_bytes layer).accepted (ap is_ok ok)
