-- ===== src/Building/Icmp/Message.antt =====
-- An ICMP packet over IPv4 in bytes: as the builder leaves it, with its live values, and as the parser reads it.
use qo_smos.Prelude.{
  ap, Bool, true, ◌==◌, if◌then◌else◌, ℕ, ◌+◌, ◌-◌, ◌*◌, ◌/◌, ◌%◌, ◌^◌, ◌<◌, ◌≡◌, refl, List, [],
  ◌∷◌, Option, none, some, length, take, take_all, arith,
}
use qo_smos.Building.Header.{
  header_of, check_layer3_of_header, check_ipv4_of_header, AreBytes, live_tuple_of, sum_of,
  header_verifies,
}
use qo_smos.Packet.{
  packet_append_header, set_total_bytes, header_ipv4, header_icmpv4, Packet, packet_new,
}
use qo_smos.Checksum.{ipv4_checksum}
use qo_smos.Checksum.Fill.{put16, filled-verifies}
use qo_smos.Checksum.Sum.{IsBytes}
use qo_smos.Socket.{Tuple}
use qo_smos.Address.{af_inet}
use qo_smos.Building.{
  IpInfo, ttl_or_none, set_headers_tuple, set_addresses, put_bytes, checksum_packet,
  ip_header_min_len, new_ip_packet, set_packet_ip_header, ip_header, set_ipv4_header,
  checksum_ipv4_packet, fill_in,
}
use qo_smos.Building.Icmp.{assembled_icmp, icmp_protocol, set_packet_icmp_header}
use qo_smos.Building.Icmp.Echoed.{
  set_packet_tuple, set_icmp_echoed_tuple, set_echoed_headers, echoed_places,
  map_inbound_icmp_packet,
}
use qo_smos.Prelude.Words.{add32}
use qo_smos.Parser.Outcome.{packet_ok, ip_header_overflows, refuse, assert}
use qo_smos.Parser.Layer4.{parse_icmpv4, append}
use qo_smos.Parser.{
  packet_layer_3_ip, parse_packet, parse, parse_entry, parse_layer3_packet, parse_ipv4,
  parse_layer4, finish_ipv4,
}

-- Type, code and what follows the checksum.
abbrev icmp_of : (ℕ × ℕ) → (ℕ × ℕ × ℕ × ℕ) → ℕ → ℕ → List ℕ → List ℕ
icmp_of (type, code) (a, b, d, e) c k behind = type ∷ code ∷ c ∷ k ∷ a ∷ b ∷ d ∷ e ∷ behind

module _ (tos hi lo ttl c k : ℕ) (src dst : ℕ × ℕ × ℕ × ℕ) (kind : ℕ × ℕ) (message : ℕ × ℕ × ℕ × ℕ)
    (c' k' : ℕ) (behind : List ℕ) where
  abbrev message_packet : List ℕ
  message_packet = header_of tos hi lo ttl 1 c k src dst (icmp_of kind message c' k' behind)

  -- What the parser and the builder record of it.
  abbrev parsed_message : Packet
  parsed_message = record {
    buffer = message_packet;
    buffer_bytes = length message_packet;
    l2_header_bytes = 0;
    ip_bytes = 28 + length behind;
    headers =
        record { type = header_ipv4; header_bytes = 20; total_bytes = 28 + length behind; ptr = 0 }
        ∷ record {
          type = header_icmpv4;
          header_bytes = 8;
          total_bytes = 8 + length behind;
          ptr = 20;
        }
        ∷ [];
    ipv4 = some 0;
    ipv6 = none;
    tcp = none;
    udp = none;
    icmpv4 = some 20;
    icmpv6 = none;
  }

  parse_packet_of_message :
      hi * 2 ^ 8 + lo ≡ 28 + length behind
      → ipv4_checksum (header_of tos hi lo ttl 1 c k src dst []) ≡ 0
      → parse_packet (packet_new message_packet) (28 + length behind) packet_layer_3_ip
        ≡ (parsed_message, packet_ok)
  unfolding parse_packet packet_new parse parse_entry parse_layer3_packet parse_ipv4 append
      packet_append_header set_total_bytes parse_layer4 parse_icmpv4 finish_ipv4 refuse assert
  parse_packet_of_message says_total sum =
      let rest = icmp_of kind message c' k' behind in
      let total = 28 + length behind in
      ground (
        arith,
        check_layer3_of_header tos hi lo ttl 1 c k src dst rest total says_total (omega arith)
            (omega arith) ip_header_overflows,
        check_ipv4_of_header tos hi lo ttl 1 c k src dst rest total says_total (omega arith)
            (omega arith) sum,
      )

-- An ICMP packet of the script with its live values and checksums.
unfoldable pub injected_icmp : Bool → ℕ → Packet → Tuple → Option Packet
injected_icmp echoed_header seq_offset packet tuple = elim (set_packet_tuple packet tuple) [
  | none ↦ none
  | some q ↦ elim (map_inbound_icmp_packet echoed_header seq_offset q) [
    | none ↦ none
    | some r ↦ checksum_packet r
  ]
]

-- The report on a packet of TCP or UDP: its IP header and 8 bytes behind it.
abbrev pub echo_of :
    ℕ → ℕ → (ℕ × ℕ × ℕ × ℕ) → (ℕ × ℕ × ℕ × ℕ) → (ℕ × ℕ) → (ℕ × ℕ) → (ℕ × ℕ × ℕ × ℕ) → List ℕ
echo_of protocol size a b (s, s') (d, d') (q, r, u, v) =
    header_of 0 (size / 2 ^ 8 % 2 ^ 8) (size % 2 ^ 8) 255 protocol 0 0 a b
      (s ∷ s' ∷ d ∷ d' ∷ q ∷ r ∷ u ∷ v ∷ [])

abbrev pub two : ℕ → ℕ × ℕ
two p = (p / 2 ^ 8 % 2 ^ 8, p % 2 ^ 8)

abbrev pub four : ℕ → ℕ × ℕ × ℕ × ℕ
four n = (n / 2 ^ 16 / 2 ^ 8 % 2 ^ 8, n / 2 ^ 16 % 2 ^ 8, n / 2 ^ 8 % 2 ^ 8, n % 2 ^ 8)

-- The four bytes of a TCP sequence number, or those of UDP that are left zero.
abbrev pub seq_bytes : ℕ → ℕ → ℕ × ℕ × ℕ × ℕ
seq_bytes protocol seq = if protocol == 6 then four seq else (0, 0, 0, 0)

module _ (info : IpInfo) (kind : ℕ × ℕ) (message : ℕ × ℕ × ℕ × ℕ) (behind : List ℕ)
    (src dst : ℕ × ℕ × ℕ × ℕ) (fits : 28 + length behind < 2 ^ 16) where
  abbrev total_hi : ℕ
  total_hi = (20 + (8 + length behind)) / 2 ^ 8 % 2 ^ 8

  abbrev total_lo : ℕ
  total_lo = (20 + (8 + length behind)) % 2 ^ 8

  abbrev header_sum : ℕ
  header_sum = sum_of info.tos total_hi total_lo (ttl_or_none info.ttl) 1 src dst

  abbrev icmp : ℕ → ℕ → List ℕ
  icmp c k = icmp_of kind message c k behind

  abbrev icmp_sum : ℕ
  icmp_sum = ipv4_checksum (take (total_hi * 2 ^ 8 + total_lo - 20) (icmp 0 0))

  abbrev pub finished : Packet
  finished =
      parsed_message info.tos total_hi total_lo (ttl_or_none info.ttl) (header_sum % 2 ^ 8)
        (header_sum / 2 ^ 8) src dst kind message (icmp_sum % 2 ^ 8) (icmp_sum / 2 ^ 8) behind

  -- Without the sums, and before also without the addresses.
  abbrev unsummed : ℕ × ℕ × ℕ × ℕ → ℕ × ℕ × ℕ × ℕ → Packet
  unsummed a b =
      parsed_message info.tos total_hi total_lo (ttl_or_none info.ttl) 0 0 a b kind message 0 0
        behind

  abbrev pub built : Packet
  built = unsummed (0, 0, 0, 0) (0, 0, 0, 0)

  abbrev pub addressed : Packet
  addressed = unsummed src dst

  pub assembled_icmp-eq :
      assembled_icmp af_inet info (8 + length behind) (icmp_of kind message 0 0 []) behind
      ≡ some built
  unfolding assembled_icmp new_ip_packet ip_header_min_len set_packet_ip_header packet_new
      packet_append_header set_total_bytes ip_header set_ipv4_header icmp_protocol
      set_packet_icmp_header
  assembled_icmp-eq = ground arith

  pub checksum_packet-eq : checksum_packet addressed ≡ some finished
  unfolding checksum_packet checksum_ipv4_packet fill_in put16
  checksum_packet-eq = ground arith

  icmp_sum-eq : icmp_sum ≡ ipv4_checksum (icmp 0 0)
  icmp_sum-eq =
      let len : total_hi * 2 ^ 8 + total_lo - 20 ≡ 8 + length behind = omega arith in
      rw (len, take_all (8 + length behind) (icmp 0 0) (omega arith)) refl

  pub icmp-IsBytes :
      kind.0 < 256 → kind.1 < 256 → AreBytes message → IsBytes behind → IsBytes (icmp 0 0)
  icmp-IsBytes type code m b = ground (arith, type, code, m, b)

  pub message_verifies :
      IsBytes (icmp 0 0) → ipv4_checksum (icmp (icmp_sum % 2 ^ 8) (icmp_sum / 2 ^ 8)) ≡ 0
  unfolding ipv4_checksum put16
  message_verifies b = rw icmp_sum-eq (filled-verifies 0 (icmp 0 0) 1 b (omega arith) (omega arith))

  pub parsed_finished :
      info.tos < 256
      → info.ttl < 256
      → AreBytes src
      → AreBytes dst
      → parse_packet (packet_new finished.buffer) finished.ip_bytes packet_layer_3_ip
        ≡ (finished, packet_ok)
  parsed_finished tos ttl s d =
      parse_packet_of_message info.tos total_hi total_lo (ttl_or_none info.ttl) (header_sum % 2 ^ 8)
        (header_sum / 2 ^ 8) src dst kind message (icmp_sum % 2 ^ 8) (icmp_sum / 2 ^ 8) behind
        (omega arith)
        (header_verifies info.tos total_hi total_lo (ttl_or_none info.ttl) 1 src dst tos
          (omega arith) (omega arith) (ground arith) (omega arith) s d)

get32_four :
    (n : ℕ)
    → n < 2 ^ 32
    → ((n / 2 ^ 16 / 2 ^ 8 % 2 ^ 8 * 2 ^ 8 + n / 2 ^ 16 % 2 ^ 8) * 2 ^ 8 + n / 2 ^ 8 % 2 ^ 8)
          * 2 ^ 8
        + n % 2 ^ 8
      ≡ n
get32_four n word = omega arith

-- A report before and behind the mapping.
module _ (info : IpInfo) (kind : ℕ × ℕ) (message : ℕ × ℕ × ℕ × ℕ) (size seq : ℕ) (sport dport : ℕ)
    (src dst : ℕ × ℕ × ℕ × ℕ) (seq_offset : ℕ) where
  abbrev pub echo : ℕ → List ℕ
  echo protocol =
      echo_of protocol size (0, 0, 0, 0) (0, 0, 0, 0) (0, 0) (0, 0) (seq_bytes protocol seq)

  abbrev echo_with : ℕ → ℕ × ℕ × ℕ × ℕ → List ℕ
  echo_with protocol q = echo_of protocol size dst src (two dport) (two sport) q

  abbrev pub live_echo : ℕ → List ℕ
  live_echo protocol = echo_with protocol (seq_bytes protocol (add32 seq seq_offset))

  abbrev pub Mapping : ℕ → Type 0
  Mapping protocol =
      injected_icmp true seq_offset (built info kind message (echo protocol) src dst (omega arith))
        (live_tuple_of sport dport src dst)
      ≡ checksum_packet (addressed info kind message (live_echo protocol) src dst (omega arith))

  pub maps_tcp : seq < 2 ^ 32 → Mapping 6
  unfolding injected_icmp set_packet_tuple set_headers_tuple set_addresses put_bytes
      set_icmp_echoed_tuple set_echoed_headers echoed_places map_inbound_icmp_packet
  maps_tcp word =
      ap
        (λ n. checksum_packet (
          addressed info kind message (echo_with 6 (four (add32 n seq_offset))) src dst
            (omega arith)))
        (get32_four seq word)

  pub maps_udp : Mapping 17
  unfolding injected_icmp set_packet_tuple set_headers_tuple set_addresses put_bytes
      set_icmp_echoed_tuple set_echoed_headers echoed_places map_inbound_icmp_packet
  maps_udp = refl
