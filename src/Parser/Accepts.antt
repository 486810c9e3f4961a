-- ===== src/Parser/Accepts.antt =====
-- What PACKET_OK promises: an IP header and a header of layer 4, as the comparison of packets asserts.
use qo_smos.Prelude.{
  ℕ, ◌≡◌, ◌∙◌, refl, Bool, true, false, ◌||◌, Option, none, some, arith, if◌then◌else◌,
  Option-cases, inl, inr,
}
use qo_smos.Packet.{
  HeaderType, Packet, packet_append_header, set_total_bytes, header_tcp, header_udp, header_icmpv4,
  header_icmpv6,
}
use qo_smos.Packet.Append.{Untouched, packet_append_header-Untouched}
use qo_smos.Parser.Outcome.{Result, packet_bad, Reason, Parsed, Checked, pass, halt}
use qo_smos.Parser.Layer4.{append, layer4_end, parse_tcp, parse_udp, parse_icmpv4, parse_icmpv6}
use qo_smos.Parser.Refusals.{
  is_ok, Refuses, passes, halts, refuse-Refuses, assert-Refuses, check_tcp-Refuses,
  check_udp-Refuses,
}

abbrev pub is_some : Option ℕ → Bool
is_some none = false
is_some (some p) = true

-- The two asserts at the head of `verify_outbound_live_headers`.
abbrev pub has_layer3 : Packet → Bool
has_layer3 p = is_some p.ipv4 || is_some p.ipv6

abbrev pub has_layer4 : Packet → Bool
has_layer4 p = is_some p.tcp || (is_some p.udp || (is_some p.icmpv4 || is_some p.icmpv6))

abbrev pub HasLayer4 : Packet → Type 0
HasLayer4 p = has_layer4 p ≡ true

abbrev pub HasBoth : Packet → Type 0
HasBoth p = (has_layer3 p ≡ true) × (has_layer4 p ≡ true)

-- A parse that ends with PACKET_OK has a packet with the property.
pub record Accepts (P : Packet → Type 0) (out : Parsed) : Type 0 where
  pub accepted : is_ok out.1 ≡ true → P out.0

or_true : (b : Bool) → (b || true) ≡ true
or_true true = refl
or_true false = refl

same_layer4 : {packet q : Packet} → Untouched packet q → has_layer4 q ≡ has_layer4 packet
same_layer4 u = rw (u.tcp, u.udp, u.icmpv4, u.icmpv6) refl

module _ {P : Packet → Type 0} where
  pub refused : (packet : Packet) (r : Result) → is_ok r ≡ false → Accepts P (packet, r)
  refused packet r h = record { accepted = λ ok. absurd (ground arith) }

  pub after-Accepts :
      {A : Type 0} {m : Checked A} (packet : Packet) (k : A → Parsed)
      → Refuses m
      → ((a : A) → Accepts P (k a))
      → Accepts P (elim m as (λ _. Parsed) [ halt r ↦ (packet, r) | pass a ↦ k a ])
  after-Accepts packet k (passes a) f = f a
  after-Accepts packet k (halts r h) f = refused packet r h

  pub append-Accepts :
      (packet : Packet) (type : HeaderType) (header_bytes total : ℕ) (e : Reason)
      (rest : Packet → Parsed)
      → ((q : Packet) → has_layer4 q ≡ has_layer4 packet → Accepts P (rest q))
      → Accepts P (append packet type header_bytes total e rest)
  unfolding append
  append-Accepts packet type header_bytes total e rest k =
      elim (Option-cases (packet_append_header packet type header_bytes)) [
        | inl full ↦ rw (append, full) (refused packet (packet_bad e) refl)
        | inr (q, ok) ↦
            rw (append, ok)
              (k (record q { headers = set_total_bytes q.headers total })
                (same_layer4 (packet_append_header-Untouched packet type header_bytes q ok)))
      ]

  pub choose-Accepts :
      {x y : Parsed} (b : Bool) → Accepts P x → Accepts P y → Accepts P (if b then x else y)
  choose-Accepts true hx hy = hx
  choose-Accepts false hx hy = hy

  layer4_end-Accepts :
      (packet_end start bytes : ℕ) (q : Packet)
      → P q
      → Accepts P (layer4_end packet_end start bytes q)
  layer4_end-Accepts packet_end start bytes q h =
      after-Accepts q _ (assert-Refuses _) (λ u. record { accepted = λ ok. h })

module _ (packet_end : ℕ) (packet : Packet) (start bytes : ℕ) where
  pub parse_tcp-Accepts : Accepts HasLayer4 (parse_tcp packet_end packet start bytes)
  unfolding parse_tcp
  parse_tcp-Accepts = after-Accepts packet _ (refuse-Refuses _ _) (λ u.
      after-Accepts _ _ (check_tcp-Refuses _ _ _) (λ len.
        append-Accepts _ header_tcp len bytes _ _
          (λ q e. layer4_end-Accepts packet_end start bytes q e)))

  pub parse_udp-Accepts : Accepts HasLayer4 (parse_udp packet_end packet start bytes)
  unfolding parse_udp
  parse_udp-Accepts = after-Accepts packet _ (refuse-Refuses _ _) (λ u.
      after-Accepts _ _ (check_udp-Refuses _ _ _) (λ v.
        append-Accepts _ header_udp 8 bytes _ _
          (λ q e. layer4_end-Accepts packet_end start bytes q (e ∙ or_true (is_some packet.tcp)))))

  pub parse_icmpv4-Accepts : Accepts HasLayer4 (parse_icmpv4 packet_end packet start bytes)
  unfolding parse_icmpv4
  parse_icmpv4-Accepts = after-Accepts packet _ (refuse-Refuses _ _) (λ u.
      append-Accepts _ header_icmpv4 8 bytes _ _
        (λ q e. layer4_end-Accepts packet_end start bytes q (e ∙ ground arith)))

  pub parse_icmpv6-Accepts : Accepts HasLayer4 (parse_icmpv6 packet_end packet start bytes)
  unfolding parse_icmpv6
  parse_icmpv6-Accepts = after-Accepts packet _ (refuse-Refuses _ _) (λ u.
      append-Accepts _ header_icmpv6 8 bytes _ _
        (λ q e. layer4_end-Accepts packet_end start bytes q (e ∙ ground arith)))
