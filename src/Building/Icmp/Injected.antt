-- ===== src/Building/Icmp/Injected.antt =====
-- A report of ICMP over IPv4, from its builder through the mapping to live values and the checksums to the parser.
use qo_smos.Prelude.{
  ℕ, ◌+◌, ◌^◌, ◌<◌, ◌≡◌, refl, sym, ap, ◌∙◌, ◌⊎◌, inl, inr, true, List, [], ◌∷◌, ◌++◌, Option, none,
  some, length, take, drop, arith,
}
use mathlib.Core.Path.{subst}
use qo_smos.Prelude.Int.{ℤ, pos, negsuc}
use qo_smos.Prelude.Words.{add32}
use qo_smos.Packet.{Packet, packet_new}
use qo_smos.Checksum.{ipv4_checksum}
use qo_smos.Checksum.Sum.{IsBytes}
use qo_smos.Parser.Outcome.{packet_ok}
use qo_smos.Parser.{packet_layer_3_ip, parse_packet}
use qo_smos.Address.{af_inet}
use qo_smos.Building.{IpInfo, htons_bytes, ip_header, set_ipv4_header, ip_header_min_len}
use qo_smos.Building.Header.{AreBytes, ip_list, live_tuple_of}
use qo_smos.Building.Icmp.{new_icmp_packet, echoed, layer4_header_len, assembled_icmp, echo_id_of}
use qo_smos.Building.Icmp.Types.{parse_icmp_type_and_code}
use qo_smos.Building.Icmp.Built.{
  header_bytes, message_of, mtu_or_zero, IsMadeOf, new_icmp_packet-IsMadeOf,
}
use qo_smos.Building.Icmp.Message.{
  injected_icmp, echo_of, two, seq_bytes, echo, live_echo, Mapping, maps_tcp, maps_udp, built,
  finished, assembled_icmp-eq, checksum_packet-eq, icmp-IsBytes, message_verifies, parsed_finished,
}

abbrev pub IsTcpOrUdp : ℕ → Type 0
IsTcpOrUdp protocol = (protocol ≡ 6) ⊎ (protocol ≡ 17)

-- The bytes of the packet that is reported, of a size and with its addresses, ports and sequence number.
abbrev reported_size : ℕ → ℕ → ℕ
reported_size protocol payload = 20 + layer4_header_len protocol + payload

echo_id-found : (echo_id : ℤ) (id : ℕ) → echo_id_of echo_id ≡ some id → echo_id ≡ pos id
unfolding echo_id_of
echo_id-found (pos n) id e = ground (arith, e)
echo_id-found (negsuc n) id e = absurd (ground (arith, e))

some_injective : {x y : Packet} → ◌≡◌ {A = Option Packet} (some x) (some y) → x ≡ y
some_injective {x} e = ap (λ o. elim o [ none ↦ x | some z ↦ z ]) e

module _ (type_string : List ℕ) (code_string : Option (List ℕ)) (protocol seq payload : ℕ)
    (info : IpInfo) (mtu echo_id : ℤ) (seq_offset sport dport : ℕ) (src dst : ℕ × ℕ × ℕ × ℕ) where
  -- What an injected report is: its type and code, and its id and MTU, are the script's; it goes from the
  -- tuple's source to its destination; and it reports a packet that went the other way, with the script's
  -- protocol and size and, if of TCP, the mapped sequence number.
  pub record IsFaithful (p : Packet) : Type 0 where
    pub parses : parse_packet (packet_new p.buffer) p.ip_bytes packet_layer_3_ip ≡ (p, packet_ok)
    pub sum : ipv4_checksum (drop 20 p.buffer) ≡ 0
    pub type : ℕ
    pub code : ℕ
    pub id : ℕ
    pub parsed : parse_icmp_type_and_code af_inet type_string code_string ≡ some (type, code)
    pub id_found : echo_id ≡ pos id
    pub kind : take 2 (drop 20 p.buffer) ≡ type ∷ code ∷ []
    pub message : take 4 (drop 24 p.buffer) ≡ htons_bytes id (htons_bytes (mtu_or_zero mtu) [])
    pub addresses : take 8 (drop 12 p.buffer) ≡ ip_list src ++ ip_list dst
    pub reported :
        drop 28 p.buffer
        ≡ echo_of protocol
            (20 + layer4_header_len protocol + payload)
            dst
            src
            (two dport)
            (two sport)
            (seq_bytes protocol (add32 seq seq_offset))

  echoed-bytes :
      (behind : List ℕ)
      → IsTcpOrUdp protocol
      → echoed af_inet protocol seq payload ≡ some behind
      → behind
        ≡ echo_of protocol
            (reported_size protocol payload)
            (0, 0, 0, 0)
            (0, 0, 0, 0)
            (0, 0)
            (0, 0)
            (seq_bytes protocol seq)
  unfolding echoed ip_header set_ipv4_header ip_header_min_len
  echoed-bytes behind (inl tcp) e = ground (arith, tcp, e)
  echoed-bytes behind (inr udp) e = ground (arith, udp, e)

  -- The report of what a packet was built of, if the mapping is as expected of its protocol.
  report_of :
      (t : Packet)
      → IsTcpOrUdp protocol
      → (m : IsMadeOf type_string code_string protocol seq payload info mtu echo_id t)
      → Mapping info
          (m.type, m.code)
          (message_of m.id (mtu_or_zero mtu))
          (reported_size protocol payload)
          seq
          sport
          dport
          src
          dst
          seq_offset
          protocol
      → info.tos < 256
      → info.ttl < 256
      → AreBytes src
      → AreBytes dst
      → IsBytes (
          live_echo info
            (m.type, m.code)
            (message_of m.id (mtu_or_zero mtu))
            (reported_size protocol payload)
            seq
            sport
            dport
            src
            dst
            seq_offset
            protocol)
      → (p : Packet) × (injected_icmp true seq_offset t (live_tuple_of sport dport src dst)
          ≡ some p)
        × IsFaithful p
  report_of t which m maps tos ttl s d bytes =
      let kind : ℕ × ℕ = (m.type, m.code) in
      let message = message_of m.id (mtu_or_zero mtu) in
      let size = reported_size protocol payload in
      let before = echo info kind message size seq sport dport src dst seq_offset protocol in
      let after = live_echo info kind message size seq sport dport src dst seq_offset protocol in
      let made : assembled_icmp af_inet info 36 (header_bytes m.type m.code message) before
          ≡ some t =
        subst
          (λ b.
            assembled_icmp af_inet info (8 + length b) (header_bytes m.type m.code message) b
            ≡ some t)
          (echoed-bytes m.behind which m.behind_found) m.assembled in
      let t_eq : t ≡ built info kind message before src dst (omega arith) =
        some_injective
          (sym made ∙ assembled_icmp-eq info kind message before src dst (omega arith)) in
      (
        finished info kind message after src dst (omega arith),
        rw t_eq (maps ∙ checksum_packet-eq info kind message after src dst (omega arith)),
        record {
          parses = parsed_finished info kind message after src dst (omega arith) tos ttl s d;
          sum = message_verifies info kind message after src dst (omega arith) (
              icmp-IsBytes info kind message after src dst (omega arith) m.type_byte m.code_byte
                (omega arith, omega arith, omega arith, omega arith) bytes);
          type = m.type;
          code = m.code;
          id = m.id;
          parsed = m.parsed;
          id_found = echo_id-found echo_id m.id m.id_found;
          kind = refl;
          message = refl;
          addresses = refl;
          reported = refl;
        },
      )

  -- Every report of ICMP over IPv4 on a TCP or UDP packet that new_icmp_packet builds is injected, whatever the live tuple and the offset of sequence numbers: set_packet_tuple, map_inbound_icmp_packet and checksum_packet succeed, and from its bytes the parser gives back the very packet, with a right ICMP checksum, the type, code, id and MTU of the script, the addresses of the tuple, and in the header that is reported the addresses and ports of the reversed tuple and the sequence number with the offset.
  pub icmp_report_injected :
      (t : Packet)
      → IsTcpOrUdp protocol
      → new_icmp_packet af_inet type_string code_string protocol seq payload info mtu echo_id
        ≡ some t
      → seq < 2 ^ 32
      → info.tos < 256
      → info.ttl < 256
      → AreBytes src
      → AreBytes dst
      → (p : Packet) × (injected_icmp true seq_offset t (live_tuple_of sport dport src dst)
          ≡ some p)
        × IsFaithful p
  icmp_report_injected t which new word tos ttl s d =
      let m =
        new_icmp_packet-IsMadeOf type_string code_string protocol seq payload info mtu echo_id t
          new in
      let kind : ℕ × ℕ = (m.type, m.code) in
      let message = message_of m.id (mtu_or_zero mtu) in
      let size = reported_size protocol payload in
      report_of t which m
        (elim which [
          | inl tcp ↦
              subst (Mapping info kind message size seq sport dport src dst seq_offset) (sym tcp)
                (maps_tcp info kind message size seq sport dport src dst seq_offset word)
          | inr udp ↦
              subst (Mapping info kind message size seq sport dport src dst seq_offset) (sym udp)
                (maps_udp info kind message size seq sport dport src dst seq_offset)
        ])
        tos ttl s d
        (elim which [ inl tcp ↦ ground (arith, tcp, s, d) | inr udp ↦ ground (arith, udp, s, d) ])
