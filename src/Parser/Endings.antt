-- ===== src/Parser/Endings.antt =====
-- The headers that end a packet: TCP, UDP and ICMP at any offset.
use qo_smos.Prelude.{ℕ, ◌+◌, ◌≤◌, ◌≡◌, refl, some, arith}
use qo_smos.Packet.{Packet, header_tcp, header_udp, header_icmpv4, header_icmpv6}
use qo_smos.Parser.Outcome.{Reason, Parsed, Checked, pass, halt}
use qo_smos.Parser.Layer4.{layer4_end, parse_tcp, parse_udp, parse_icmpv4, parse_icmpv6}
use qo_smos.Parser.Rules.{IsTame, Holds, passes, halts, refuse_rule, assert_rule}
use qo_smos.Parser.Guards.{check_tcp-Holds, check_udp-Holds}
use qo_smos.Parser.Rows.{IsAt, IsDone, stopped, moved, append-IsDone}

-- A check and what follows it, as the parser's functions put them together.
pub after_check :
    {A : Type 0} {packet_end p : ℕ} {packet : Packet} {P : A → Type 0} {m : Checked A}
    (k : A → Parsed)
    → IsAt packet_end packet p
    → Holds (IsTame packet.buffer packet_end) P m
    → ((a : A) → P a → IsDone packet_end packet (k a))
    → IsDone packet_end packet (elim m as (λ _. Parsed) [ halt r ↦ (packet, r) | pass a ↦ k a ])
after_check k a (passes x h) f = f x h
after_check k a (halts r h) f = stopped r a h

layer4_end-IsDone :
    (packet_end start bytes : ℕ) (q : Packet) {p : ℕ}
    → start + bytes ≤ packet_end
    → IsAt packet_end q p
    → IsDone packet_end q (layer4_end packet_end start bytes q)
layer4_end-IsDone packet_end start bytes q inside a =
    after_check _ a (assert_rule q.buffer packet_end (ground arith)) (λ u v. stopped _ a tt)

-- Only the row of headers and the lengths matter to where a parse stands.
same-IsAt :
    {packet_end p : ℕ} {packet q : Packet}
    → q.headers ≡ packet.headers
    → q.ip_bytes ≡ packet.ip_bytes
    → q.l2_header_bytes ≡ packet.l2_header_bytes
    → q.buffer ≡ packet.buffer
    → IsAt packet_end packet p
    → IsAt packet_end q p
same-IsAt {p = p} eh ei el eb a = record {
  row = rw (eh, el) a.row;
  here = rw (ei, el) a.here;
  inside = a.inside;
  count = rw eh a.count;
  fits = rw eb a.fits;
}

module _ (packet_end : ℕ) (packet : Packet) (start bytes : ℕ)
    (a : IsAt packet_end packet start) where
  IsAt-tcp : IsAt packet_end (record packet { tcp = some start }) start
  IsAt-tcp = same-IsAt refl refl refl refl a

  IsAt-udp : IsAt packet_end (record packet { udp = some start }) start
  IsAt-udp = same-IsAt refl refl refl refl a

  pub parse_tcp-IsDone :
      start + bytes ≤ packet_end
      → IsDone packet_end packet (parse_tcp packet_end packet start bytes)
  unfolding parse_tcp
  parse_tcp-IsDone inside = after_check _ a (refuse_rule packet.buffer packet_end _ _) (λ u long.
      moved refl refl (
        after_check _ IsAt-tcp
          (check_tcp-Holds packet.buffer packet_end a.fits start bytes inside (ground arith))
          (λ len small.
            append-IsDone header_tcp len bytes Reason.too_many_headers_tcp
              (layer4_end packet_end start bytes) IsAt-tcp (omega arith)
              (λ q at same_buffer same_l2 grown.
                layer4_end-IsDone packet_end start bytes q inside at))))

  pub parse_udp-IsDone :
      start + bytes ≤ packet_end
      → IsDone packet_end packet (parse_udp packet_end packet start bytes)
  unfolding parse_udp
  parse_udp-IsDone inside = after_check _ a (refuse_rule packet.buffer packet_end _ _) (λ u long.
      moved refl refl (
        after_check _ IsAt-udp
          (check_udp-Holds packet.buffer packet_end a.fits start bytes inside (ground arith))
          (λ u v.
            append-IsDone header_udp 8 bytes Reason.too_many_headers_udp
              (layer4_end packet_end start bytes) IsAt-udp (ground arith)
              (λ q at same_buffer same_l2 grown.
                layer4_end-IsDone packet_end start bytes q inside at))))

  pub parse_icmpv4-IsDone :
      start + bytes ≤ packet_end
      → IsDone packet_end packet (parse_icmpv4 packet_end packet start bytes)
  unfolding parse_icmpv4
  parse_icmpv4-IsDone inside = after_check _ a (refuse_rule packet.buffer packet_end _ _) (λ u long.
      moved refl refl (
        append-IsDone {packet = record packet { icmpv4 = some start }} header_icmpv4 8 bytes
          Reason.too_many_headers_icmp (layer4_end packet_end start bytes)
          (same-IsAt refl refl refl refl a) (ground arith)
          (λ q at same_buffer same_l2 grown. layer4_end-IsDone packet_end start bytes q inside at)))

  pub parse_icmpv6-IsDone :
      start + bytes ≤ packet_end
      → IsDone packet_end packet (parse_icmpv6 packet_end packet start bytes)
  unfolding parse_icmpv6
  parse_icmpv6-IsDone inside = after_check _ a (refuse_rule packet.buffer packet_end _ _) (λ u long.
      moved refl refl (
        append-IsDone {packet = record packet { icmpv6 = some start }} header_icmpv6 8 bytes
          Reason.too_many_headers_icmp (layer4_end packet_end start bytes)
          (same-IsAt refl refl refl refl a) (ground arith)
          (λ q at same_buffer same_l2 grown. layer4_end-IsDone packet_end start bytes q inside at)))
