-- ===== src/Building/Datagram.antt =====
-- A UDP datagram over IPv4, from its builder through the checksums to the parser.
use qo_smos.Prelude.{
  ℕ, ◌+◌, ◌-◌, ◌*◌, ◌/◌, ◌%◌, ◌^◌, ◌<◌, ◌≡◌, refl, List, [], ◌∷◌, Option, none, some, length,
  replicate, take, drop, length-replicate, take_all, arith,
}
use qo_smos.Building.Header.{
  header_of, check_layer3_of_header, check_ipv4_of_header, AreBytes, ip_list, sum_of,
  header_verifies, zeros-IsBytes,
}
use qo_smos.Packet.{
  packet_append_header, set_total_bytes, header_ipv4, header_udp, Packet, packet_new,
}
use qo_smos.Checksum.{ipv4_checksum, tcp_udp_v4_checksum}
use qo_smos.Checksum.Fill.{put16}
use qo_smos.Checksum.Segments.{tcp_udp_v4_checksum-filled}
use qo_smos.Socket.{Tuple}
use qo_smos.Address.{af_inet}
use qo_smos.Building.{
  IpInfo, ttl_or_none, new_udp_packet, set_headers_tuple, set_addresses, put_bytes, checksum_packet,
  ip_header_min_len, new_ip_packet, set_packet_ip_header, ip_header, set_ipv4_header, udp_header,
  checksum_ipv4_packet, fill_in,
}
use qo_smos.Parser.Outcome.{
  pass, packet_ok, ip_header_overflows, ◌>>=◌, refuse, assert, read8, read16,
}
use qo_smos.Parser.Layer4.{check_udp, parse_udp, append}
use qo_smos.Parser.{
  packet_layer_3_ip, parse_packet, parse, parse_entry, parse_layer3_packet, parse_ipv4,
  parse_layer4, finish_ipv4,
}

-- The UDP header, in front of `rest`.
abbrev udp_of : (ℕ × ℕ) → (ℕ × ℕ) → ℕ → ℕ → ℕ → ℕ → List ℕ → List ℕ
udp_of (s, s') (d, d') hi lo c k rest = s ∷ s' ∷ d ∷ d' ∷ hi ∷ lo ∷ c ∷ k ∷ rest

module _ (tos hi lo ttl c k : ℕ) (src dst : ℕ × ℕ × ℕ × ℕ) (sport dport : ℕ × ℕ) (hi' lo' c' k' : ℕ)
    (payload : List ℕ) where
  abbrev datagram : List ℕ
  datagram = header_of tos hi lo ttl 17 c k src dst (udp_of sport dport hi' lo' c' k' payload)

  -- What the parser and the builder record of it.
  abbrev parsed_datagram : Packet
  parsed_datagram = record {
    buffer = datagram;
    buffer_bytes = length datagram;
    l2_header_bytes = 0;
    ip_bytes = 28 + length payload;
    headers =
        record { type = header_ipv4; header_bytes = 20; total_bytes = 28 + length payload; ptr = 0 }
        ∷ record { type = header_udp; header_bytes = 8; total_bytes = 8 + length payload; ptr = 20 }
        ∷ [];
    ipv4 = some 0;
    ipv6 = none;
    tcp = none;
    udp = some 20;
    icmpv4 = none;
    icmpv6 = none;
  }

  check_udp_of_datagram :
      hi' * 2 ^ 8 + lo' ≡ 8 + length payload → check_udp datagram 20 (8 + length payload) ≡ pass tt
  unfolding check_udp ◌>>=◌ refuse read8 read16
  check_udp_of_datagram says_len = ground arith

  parse_packet_of_datagram :
      hi * 2 ^ 8 + lo ≡ 28 + length payload
      → hi' * 2 ^ 8 + lo' ≡ 8 + length payload
      → ipv4_checksum (header_of tos hi lo ttl 17 c k src dst []) ≡ 0
      → parse_packet (packet_new datagram) (28 + length payload) packet_layer_3_ip
        ≡ (parsed_datagram, packet_ok)
  unfolding parse_packet packet_new parse parse_entry parse_layer3_packet parse_ipv4 append
      packet_append_header set_total_bytes parse_layer4 parse_udp finish_ipv4 refuse assert
  parse_packet_of_datagram says_total says_len sum =
      let rest = udp_of sport dport hi' lo' c' k' payload in
      let total = 28 + length payload in
      ground (
        arith,
        check_udp_of_datagram says_len,
        check_layer3_of_header tos hi lo ttl 17 c k src dst rest total says_total (omega arith)
            (omega arith) ip_header_overflows,
        check_ipv4_of_header tos hi lo ttl 17 c k src dst rest total says_total (omega arith)
            (omega arith) sum,
      )

-- A datagram of the script with the addresses and ports of the live tuple and its checksums.
unfoldable pub finished_udp : IpInfo → ℕ → ℕ → ℕ → Tuple → Option Packet
finished_udp info n sport dport tuple = elim (new_udp_packet af_inet info n sport dport) [
  | none ↦ none
  | some p ↦ elim (set_headers_tuple p tuple) [ none ↦ none | some q ↦ checksum_packet q ]
]

module _ (info : IpInfo) (n script_sport script_dport sport dport : ℕ) (src dst : ℕ × ℕ × ℕ × ℕ)
    (fits : 28 + n < 2 ^ 16) where
  abbrev total_hi : ℕ
  total_hi = (20 + (8 + n)) / 2 ^ 8 % 2 ^ 8

  abbrev total_lo : ℕ
  total_lo = (20 + (8 + n)) % 2 ^ 8

  abbrev two : ℕ → ℕ × ℕ
  two p = (p / 2 ^ 8 % 2 ^ 8, p % 2 ^ 8)

  abbrev pub live_tuple : Tuple
  live_tuple = record {
    src = record { ip = ip_list src; port = sport };
    dst = record { ip = ip_list dst; port = dport };
  }

  abbrev zeros : List ℕ
  zeros = replicate n 0

  abbrev header_sum : ℕ
  header_sum = sum_of info.tos total_hi total_lo (ttl_or_none info.ttl) 17 src dst

  abbrev segment_sum : ℕ
  segment_sum =
      let l4 = total_hi * 2 ^ 8 + total_lo - 20 in
      tcp_udp_v4_checksum (ip_list src) (ip_list dst) 17
        (take l4
          (udp_of (two sport) (two dport) ((8 + n) / 2 ^ 8 % 2 ^ 8) ((8 + n) % 2 ^ 8) 0 0 zeros))
        l4

  abbrev finished : Packet
  finished =
      parsed_datagram info.tos total_hi total_lo (ttl_or_none info.ttl) (header_sum % 2 ^ 8)
        (header_sum / 2 ^ 8) src dst (two sport) (two dport) ((8 + n) / 2 ^ 8 % 2 ^ 8)
        ((8 + n) % 2 ^ 8) (segment_sum % 2 ^ 8) (segment_sum / 2 ^ 8) zeros

  -- Without the sums, and before also without the addresses and ports.
  abbrev unsummed : ℕ × ℕ × ℕ × ℕ → ℕ × ℕ × ℕ × ℕ → ℕ × ℕ → ℕ × ℕ → Packet
  unsummed a b p q =
      parsed_datagram info.tos total_hi total_lo (ttl_or_none info.ttl) 0 0 a b p q
        ((8 + n) / 2 ^ 8 % 2 ^ 8) ((8 + n) % 2 ^ 8) 0 0 zeros

  abbrev built : Packet
  built = unsummed (0, 0, 0, 0) (0, 0, 0, 0) (two script_sport) (two script_dport)

  abbrev addressed : Packet
  addressed = unsummed src dst (two sport) (two dport)

  new_udp_packet-eq : new_udp_packet af_inet info n script_sport script_dport ≡ some built
  unfolding new_udp_packet new_ip_packet ip_header_min_len set_packet_ip_header packet_new
      packet_append_header set_total_bytes ip_header set_ipv4_header udp_header
  new_udp_packet-eq = ground (arith, length-replicate {A = ℕ} n 0)

  set_headers_tuple-eq : set_headers_tuple built live_tuple ≡ some addressed
  unfolding set_headers_tuple set_addresses put_bytes
  set_headers_tuple-eq = refl

  checksum_packet-eq : checksum_packet addressed ≡ some finished
  unfolding checksum_packet checksum_ipv4_packet fill_in put16
  checksum_packet-eq = ground (arith, length-replicate {A = ℕ} n 0)

  finished_udp-eq : finished_udp info n script_sport script_dport live_tuple ≡ some finished
  unfolding finished_udp
  finished_udp-eq = ground (arith, new_udp_packet-eq, set_headers_tuple-eq, checksum_packet-eq)

  abbrev segment : ℕ → ℕ → List ℕ
  segment c k = udp_of (two sport) (two dport) ((8 + n) / 2 ^ 8 % 2 ^ 8) ((8 + n) % 2 ^ 8) c k zeros

  segment_sum-eq :
      segment_sum ≡ tcp_udp_v4_checksum (ip_list src) (ip_list dst) 17 (segment 0 0) (8 + n)
  segment_sum-eq =
      let len : total_hi * 2 ^ 8 + total_lo - 20 ≡ 8 + n = omega arith in
      rw (len, take_all (8 + n) (segment 0 0) (omega (arith, length-replicate {A = ℕ} n 0))) refl

  segment_verifies :
      AreBytes src
      → AreBytes dst
      → tcp_udp_v4_checksum
          (ip_list src)
          (ip_list dst)
          17
          (segment (segment_sum % 2 ^ 8) (segment_sum / 2 ^ 8))
          (8 + n)
        ≡ 0
  unfolding put16
  segment_verifies s d = rw segment_sum-eq (
      tcp_udp_v4_checksum-filled (ip_list src) (ip_list dst) 17 (8 + n) (segment 0 0) 3
        (omega arith) (omega arith) (omega arith) (ground (arith, zeros-IsBytes n)) (omega arith)
        (omega (arith, length-replicate {A = ℕ} n 0)) refl refl (omega arith))

  -- A UDP datagram over IPv4 of fewer than 2^16 bytes, built by new_udp_packet, given the live addresses and ports by set_headers_tuple and summed by checksum_packet, is parsed back from its bytes to the very packet, and its UDP checksum verifies.
  pub udp_datagram_arrives :
      info.tos < 256
      → info.ttl < 256
      → AreBytes src
      → AreBytes dst
      → (p : Packet) × (finished_udp info n script_sport script_dport live_tuple ≡ some p)
        × (parse_packet (packet_new p.buffer) p.ip_bytes packet_layer_3_ip ≡ (p, packet_ok))
        × (tcp_udp_v4_checksum (ip_list src) (ip_list dst) 17 (drop 20 p.buffer) (8 + n) ≡ 0)
  udp_datagram_arrives tos ttl s d = (
    finished,
    finished_udp-eq,
    parse_packet_of_datagram info.tos total_hi total_lo (ttl_or_none info.ttl) (header_sum % 2 ^ 8)
        (header_sum / 2 ^ 8) src dst (two sport) (two dport) ((8 + n) / 2 ^ 8 % 2 ^ 8)
        ((8 + n) % 2 ^ 8) (segment_sum % 2 ^ 8) (segment_sum / 2 ^ 8) zeros
        (omega (arith, length-replicate {A = ℕ} n 0)) (omega (arith, length-replicate {A = ℕ} n 0))
        (header_verifies info.tos total_hi total_lo (ttl_or_none info.ttl) 17 src dst tos
          (omega arith) (omega arith) (ground arith) (omega arith) s d),
    segment_verifies s d,
  )
