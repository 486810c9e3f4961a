-- ===== src/Parser/Safety.antt =====
-- The parser on any bytes: what it records, and how it may end.
use qo_smos.Prelude.{
  ℕ, zero, suc, ◌+◌, ◌-◌, ◌≤◌, ◌<◌, ◌≡◌, arith, ◌∙◌, length, Bool, true, false, ◌==◌, ◌||◌,
  if◌then◌else◌,
}
use qo_smos.Packet.{Packet, header_ipv4, header_ipv6, header_gre, header_mpls}
use qo_smos.Parser.Outcome.{Reason, Parsed}
use qo_smos.Parser.Layer4.{append}
use qo_smos.Parser.Guards.{
  check_ipv4-Holds, check_ipv6-Holds, check_layer3-Holds, check_gre-Holds, check_mpls-Holds,
}
use qo_smos.Parser.Rows.{IsAt, IsDone, stopped, append-IsDone}
use qo_smos.Parser.{
  Entry, layer3, ipv4, ipv6, mpls, by_proto, Inner, parse_gre, parse_layer4, finish_ipv4,
  finish_ipv6, parse_ipv4, parse_ipv6, parse_mpls, parse_layer3_packet,
  parse_layer3_packet_by_proto, parse_entry, parse,
}
use qo_smos.Parser.Endings.{
  after_check, parse_tcp-IsDone, parse_udp-IsDone, parse_icmpv4-IsDone, parse_icmpv6-IsDone,
}

either :
    {packet_end : ℕ} {packet : Packet} {x y : Parsed} (b : Bool)
    → IsDone packet_end packet x
    → IsDone packet_end packet y
    → IsDone packet_end packet (if b then x else y)
either true dx dy = dx
either false dx dy = dy

same-IsDone :
    {packet_end : ℕ} {packet : Packet} {out out' : Parsed}
    → out'.0.headers ≡ out.0.headers
    → out'.0.buffer ≡ out.0.buffer
    → out'.0.l2_header_bytes ≡ out.0.l2_header_bytes
    → out'.1 ≡ out.1
    → IsDone packet_end packet out
    → IsDone packet_end packet out'
same-IsDone eh eb el er d = record {
  row = rw eh d.row;
  count = rw eh d.count;
  same_buffer = eb ∙ d.same_buffer;
  same_l2 = el ∙ d.same_l2;
  tame = rw er d.tame;
}

module _ {packet_end : ℕ} {packet : Packet} (is_outer : Bool) (offset total : ℕ)
    (out : Parsed) where
  finish_ipv4-IsDone :
      IsDone packet_end packet out
      → IsDone packet_end packet (finish_ipv4 is_outer offset total out)
  unfolding finish_ipv4
  finish_ipv4-IsDone d =
      same-IsDone {out = out} (ground arith) (ground arith) (ground arith) (ground arith) d

  finish_ipv6-IsDone :
      IsDone packet_end packet out
      → IsDone packet_end packet (finish_ipv6 is_outer offset total out)
  unfolding finish_ipv6
  finish_ipv6-IsDone d =
      same-IsDone {out = out} (ground arith) (ground arith) (ground arith) (ground arith) d

-- What is asked of the parser of the headers inside.
abbrev pub InnerDone : Inner → ℕ → ℕ → Type 0
InnerDone inner packet_end depth =
    (entry : Entry) (q : Packet) (p : ℕ)
    → IsAt packet_end q p
    → 6 < depth + length q.headers
    → IsDone packet_end q (inner entry q p)

module _ (inner : Inner) (packet_end depth : ℕ) (ih : InnerDone inner packet_end depth) where
  parse_gre-IsDone :
      (packet : Packet) (start bytes : ℕ)
      → IsAt packet_end packet start
      → start + bytes ≤ packet_end
      → 6 < suc depth + length packet.headers
      → IsDone packet_end packet (parse_gre inner packet_end packet start bytes)
  unfolding parse_gre
  parse_gre-IsDone packet start bytes a inside room =
      after_check
        (λ x.
          append packet header_gre x.0 bytes Reason.too_many_headers_gre
            (λ packet'. inner (by_proto x.1) packet' (start + x.0)))
        a (check_gre-Holds packet.buffer packet_end a.fits start bytes inside)
        (λ x h.
          append-IsDone header_gre x.0 bytes _ (λ q. inner (by_proto x.1) q (start + x.0)) a h.1
            (λ q at same_buffer same_l2 grown. ih _ q _ at (omega arith)))

  parse_layer4-IsDone :
      (packet : Packet) (start protocol bytes : ℕ)
      → IsAt packet_end packet start
      → start + bytes ≤ packet_end
      → 6 < depth + length packet.headers
      → IsDone packet_end packet (parse_layer4 inner packet_end packet start protocol bytes)
  unfolding parse_layer4
  parse_layer4-IsDone packet start protocol bytes a inside room =
      either (protocol == 6) (parse_tcp-IsDone packet_end packet start bytes a inside) (
        either (protocol == 17) (parse_udp-IsDone packet_end packet start bytes a inside) (
          either (protocol == 1) (parse_icmpv4-IsDone packet_end packet start bytes a inside) (
            either (protocol == 58) (parse_icmpv6-IsDone packet_end packet start bytes a inside) (
              either (protocol == 47) (parse_gre-IsDone packet start bytes a inside (omega arith)) (
                either (protocol == 4) (ih ipv4 packet start a room)
                  (either (protocol == 41) (ih ipv6 packet start a room) (stopped _ a tt)))))))

  module _ (packet : Packet) (p : ℕ) (a : IsAt packet_end packet p)
      (room : 6 < suc depth + length packet.headers) where
    parse_ipv4-IsDone : IsDone packet_end packet (parse_ipv4 inner packet_end packet p)
    unfolding parse_ipv4
    parse_ipv4-IsDone =
        after_check _ a (check_ipv4-Holds packet.buffer packet_end a.fits p a.inside) (λ x fit.
          append-IsDone header_ipv4 x.header x.total _
            (λ q.
              finish_ipv4 (packet.ip_bytes == 0) p x.total
                (parse_layer4 inner packet_end q (p + x.header) x.protocol (x.total - x.header)))
            a (omega arith)
            (λ q at same_buffer same_l2 grown.
              finish_ipv4-IsDone (packet.ip_bytes == 0) p x.total _ (
                parse_layer4-IsDone q (p + x.header) x.protocol (x.total - x.header) at
                  (omega arith) (omega arith))))

    parse_ipv6-IsDone : IsDone packet_end packet (parse_ipv6 inner packet_end packet p)
    unfolding parse_ipv6
    parse_ipv6-IsDone =
        after_check _ a (check_ipv6-Holds packet.buffer packet_end a.fits p) (λ x fit.
          append-IsDone header_ipv6 x.header x.total _
            (λ q.
              finish_ipv6 (packet.ip_bytes == 0) p x.total
                (parse_layer4 inner packet_end q (p + x.header) x.protocol (x.total - x.header)))
            a (omega arith)
            (λ q at same_buffer same_l2 grown.
              finish_ipv6-IsDone (packet.ip_bytes == 0) p x.total _ (
                parse_layer4-IsDone q (p + x.header) x.protocol (x.total - x.header) at
                  (omega arith) (omega arith))))

    parse_mpls-IsDone : IsDone packet_end packet (parse_mpls inner packet_end packet p)
    unfolding parse_mpls
    parse_mpls-IsDone =
        after_check _ a (check_mpls-Holds packet.buffer packet_end p a.inside) (λ after between.
          append-IsDone header_mpls (after - p) (packet_end - p) _ (λ q. inner layer3 q after) a
            (omega arith)
            (λ q at same_buffer same_l2 grown.
              ih layer3 q after (let e : p + (after - p) ≡ after = omega arith in rw e at at)
                (omega arith)))

    parse_layer3-IsDone : IsDone packet_end packet (parse_layer3_packet inner packet_end packet p)
    unfolding parse_layer3_packet
    parse_layer3-IsDone =
        after_check _ a (check_layer3-Holds packet.buffer packet_end a.fits p 20 _ (omega arith))
          (λ version there.
            either (version == 4) parse_ipv4-IsDone
              (either (version == 6) parse_ipv6-IsDone (stopped _ a tt)))

    parse_by_proto-IsDone :
        (proto : ℕ)
        → IsDone packet_end packet (parse_layer3_packet_by_proto inner packet_end packet proto p)
    unfolding parse_layer3_packet_by_proto
    parse_by_proto-IsDone proto =
        either (proto == 0x0800)
          (after_check _ a (check_layer3-Holds packet.buffer packet_end a.fits p 20 _ (omega arith))
            (λ version there. either (version == 4) parse_ipv4-IsDone (stopped _ a tt)))
          (either (proto == 0x86dd)
            (after_check _ a
              (check_layer3-Holds packet.buffer packet_end a.fits p 40 _ (omega arith))
              (λ version there. either (version == 6) parse_ipv6-IsDone (stopped _ a tt)))
            (either ((proto == 0x8847) || (proto == 0x8848)) parse_mpls-IsDone (stopped _ a tt)))

    parse_entry-IsDone :
        (entry : Entry) → IsDone packet_end packet (parse_entry inner packet_end entry packet p)
    unfolding parse_entry
    parse_entry-IsDone layer3 = parse_layer3-IsDone
    parse_entry-IsDone ipv4 = parse_ipv4-IsDone
    parse_entry-IsDone ipv6 = parse_ipv6-IsDone
    parse_entry-IsDone mpls = parse_mpls-IsDone
    parse_entry-IsDone (by_proto proto) = parse_by_proto-IsDone proto

-- One unit of fuel for each header that there is room for, and one more, is enough.
pub parse-InnerDone : (fuel packet_end : ℕ) → InnerDone (parse fuel packet_end) packet_end fuel
unfolding parse
parse-InnerDone zero packet_end entry q p a room = absurd (omega (arith, a.count))
parse-InnerDone (suc fuel) packet_end entry q p a room =
    parse_entry-IsDone (parse fuel packet_end) packet_end fuel (parse-InnerDone fuel packet_end) q p
      a room entry
