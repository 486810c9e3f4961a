-- ===== src/Building/Segment.antt =====
-- A TCP segment over IPv4, from its builder through the checksums to the parser.
use qo_smos.Prelude.{
  ℕ, ◌+◌, ◌-◌, ◌*◌, ◌/◌, ◌%◌, ◌^◌, ◌≤◌, ◌<◌, ◌≡◌, refl, List, [], ◌∷◌, Option, none, some, length,
  replicate, take, drop, length-replicate, length-append, ◌++◌, take_all, arith, Bool, false,
}
use qo_smos.Building.Header.{
  header_of, check_layer3_of_header, check_ipv4_of_header, AreBytes, ip_list, live_tuple_of, sum_of,
  header_verifies, zeros-IsBytes,
}
use qo_smos.Packet.{
  packet_append_header, set_total_bytes, header_ipv4, header_tcp, Packet, packet_new,
}
use qo_smos.Checksum.{ipv4_checksum, tcp_udp_v4_checksum}
use qo_smos.Checksum.Fill.{put16}
use qo_smos.Checksum.Sum.{IsBytes}
use qo_smos.Checksum.Segments.{tcp_udp_v4_checksum-filled, append-IsBytes}
use qo_smos.Socket.{Tuple}
use qo_smos.Address.{af_inet}
use qo_smos.Building.{
  IpInfo, ttl_or_none, new_tcp_packet, set_headers_tuple, set_addresses, put_bytes, checksum_packet,
  ip_header_min_len, new_ip_packet, set_packet_ip_header, ip_header, set_ipv4_header, tcp_header,
  checksum_ipv4_packet, fill_in, TcpSpec, TcpPacket, flag_byte, is_tcp_flag_set, is_tcp_refused,
  is_absent, option_data, window_or_zero,
}
use qo_smos.Parser.Outcome.{pass, packet_ok, ip_header_overflows, ◌>>=◌, refuse, assert, read8}
use qo_smos.Parser.Layer4.{check_tcp, parse_tcp, append}
use qo_smos.Parser.{
  packet_layer_3_ip, parse_packet, parse, parse_entry, parse_layer3_packet, parse_ipv4,
  parse_layer4, finish_ipv4,
}

-- The numbers of a TCP header: sequence, acknowledgement, data offset, flags, window and urgent pointer, a
-- byte each.
abbrev Fields : Type 0
Fields = (ℕ × ℕ × ℕ × ℕ) × (ℕ × ℕ × ℕ × ℕ) × ℕ × ℕ × (ℕ × ℕ) × (ℕ × ℕ)

-- The TCP header, in front of `rest`.
abbrev tcp_of : (ℕ × ℕ) → (ℕ × ℕ) → Fields → ℕ → ℕ → List ℕ → List ℕ
tcp_of (s, s') (d, d') ((q, r, t, v), (a, b, e, f), off, fl, (w, x), (u, z)) c k rest =
    s ∷ s' ∷ d ∷ d' ∷ q ∷ r ∷ t ∷ v ∷ a ∷ b ∷ e ∷ f ∷ off ∷ fl ∷ w ∷ x ∷ c ∷ k ∷ u ∷ z ∷ rest

abbrev offset_of : Fields → ℕ
offset_of (q, a, off, fl, w, u) = off

module _ (tos hi lo ttl c k : ℕ) (src dst : ℕ × ℕ × ℕ × ℕ) (sport dport : ℕ × ℕ) (fields : Fields)
    (c' k' : ℕ) (rest : List ℕ) (len : ℕ) where
  abbrev segment_packet : List ℕ
  segment_packet = header_of tos hi lo ttl 6 c k src dst (tcp_of sport dport fields c' k' rest)

  -- What the parser and the builder record of it.
  abbrev parsed_segment : Packet
  parsed_segment = record {
    buffer = segment_packet;
    buffer_bytes = length segment_packet;
    l2_header_bytes = 0;
    ip_bytes = 40 + length rest;
    headers =
        record { type = header_ipv4; header_bytes = 20; total_bytes = 40 + length rest; ptr = 0 }
        ∷ record { type = header_tcp; header_bytes = len; total_bytes = 20 + length rest; ptr = 20 }
        ∷ [];
    ipv4 = some 0;
    ipv6 = none;
    tcp = some 20;
    udp = none;
    icmpv4 = none;
    icmpv6 = none;
  }

  check_tcp_of_segment :
      offset_of fields / 16 * 4 ≡ len
      → 20 ≤ len
      → len ≤ 20 + length rest
      → check_tcp segment_packet 20 (20 + length rest) ≡ pass len
  unfolding check_tcp ◌>>=◌ refuse read8
  check_tcp_of_segment says_len low high = ground arith

  parse_packet_of_segment :
      hi * 2 ^ 8 + lo ≡ 40 + length rest
      → offset_of fields / 16 * 4 ≡ len
      → 20 ≤ len
      → len ≤ 20 + length rest
      → ipv4_checksum (header_of tos hi lo ttl 6 c k src dst []) ≡ 0
      → parse_packet (packet_new segment_packet) (40 + length rest) packet_layer_3_ip
        ≡ (parsed_segment, packet_ok)
  unfolding parse_packet packet_new parse parse_entry parse_layer3_packet parse_ipv4 append
      packet_append_header set_total_bytes parse_layer4 parse_tcp finish_ipv4 refuse assert
  parse_packet_of_segment says_total says_len low high sum =
      let tcp = tcp_of sport dport fields c' k' rest in
      let total = 40 + length rest in
      ground (
        arith,
        check_tcp_of_segment says_len low high,
        check_layer3_of_header tos hi lo ttl 6 c k src dst tcp total says_total (omega arith)
            (omega arith) ip_header_overflows,
        check_ipv4_of_header tos hi lo ttl 6 c k src dst tcp total says_total (omega arith)
            (omega arith) sum,
      )

-- A segment of the script with the addresses and ports of the live tuple and its checksums.
unfoldable pub finished_tcp : Bool → IpInfo → TcpSpec → ℕ → Tuple → Option Packet
finished_tcp inbound info tcp n tuple = elim (new_tcp_packet af_inet inbound info tcp n) [
  | none ↦ none
  | some t ↦ elim (set_headers_tuple t.packet tuple) [ none ↦ none | some q ↦ checksum_packet q ]
]

is_tcp_flag_set-bound : (c : ℕ) (flags : List ℕ) (bit : ℕ) → is_tcp_flag_set c flags bit ≤ bit
unfolding is_tcp_flag_set
is_tcp_flag_set-bound c flags bit = ground arith

-- The eight bits are a byte.
flag_byte-bound : (flags : List ℕ) → flag_byte flags < 256
unfolding flag_byte
flag_byte-bound flags = omega (
  arith,
  is_tcp_flag_set-bound b'F' flags 1,
  is_tcp_flag_set-bound b'S' flags 2,
  is_tcp_flag_set-bound b'R' flags 4,
  is_tcp_flag_set-bound b'P' flags 8,
  is_tcp_flag_set-bound b'.' flags 16,
  is_tcp_flag_set-bound b'U' flags 32,
  is_tcp_flag_set-bound b'E' flags 64,
  is_tcp_flag_set-bound b'W' flags 128,
)

abbrev two : ℕ → ℕ × ℕ
two p = (p / 2 ^ 8 % 2 ^ 8, p % 2 ^ 8)

abbrev four : ℕ → ℕ × ℕ × ℕ × ℕ
four n = (n / 2 ^ 16 / 2 ^ 8 % 2 ^ 8, n / 2 ^ 16 % 2 ^ 8, n / 2 ^ 8 % 2 ^ 8, n % 2 ^ 8)

module _ (inbound : Bool) (info : IpInfo) (tcp : TcpSpec) (n sport dport : ℕ)
    (src dst : ℕ × ℕ × ℕ × ℕ)
    (accepted : is_tcp_refused inbound tcp
        (20 + length (option_data tcp))
        (20 + (20 + length (option_data tcp)) + n)
      ≡ false)
    (fits : 40 + length (option_data tcp) + n < 2 ^ 16) where
  abbrev header_len : ℕ
  header_len = 20 + length (option_data tcp)

  abbrev total_hi : ℕ
  total_hi = (20 + header_len + n) / 2 ^ 8 % 2 ^ 8

  abbrev total_lo : ℕ
  total_lo = (20 + header_len + n) % 2 ^ 8

  abbrev body : List ℕ
  body = option_data tcp ++ replicate n 0

  abbrev fields : Fields
  fields = (
    four tcp.start_sequence,
    four tcp.ack_sequence,
    header_len / 4 % 2 ^ 4 * 2 ^ 4,
    flag_byte tcp.flags,
    two (window_or_zero tcp),
    two tcp.urg_ptr,
  )

  abbrev header_sum : ℕ
  header_sum = sum_of info.tos total_hi total_lo (ttl_or_none info.ttl) 6 src dst

  abbrev segment : ℕ → ℕ → List ℕ
  segment c k = tcp_of (two sport) (two dport) fields c k body

  abbrev segment_sum : ℕ
  segment_sum =
      let l4 = total_hi * 2 ^ 8 + total_lo - 20 in
      tcp_udp_v4_checksum (ip_list src) (ip_list dst) 6 (take l4 (segment 0 0)) l4

  abbrev finished : Packet
  finished =
      parsed_segment info.tos total_hi total_lo (ttl_or_none info.ttl) (header_sum % 2 ^ 8)
        (header_sum / 2 ^ 8) src dst (two sport) (two dport) fields (segment_sum % 2 ^ 8)
        (segment_sum / 2 ^ 8) body header_len

  -- Without the sums, and before also without the addresses and ports.
  abbrev unsummed : ℕ × ℕ × ℕ × ℕ → ℕ × ℕ × ℕ × ℕ → ℕ × ℕ → ℕ × ℕ → Packet
  unsummed a b p q =
      parsed_segment info.tos total_hi total_lo (ttl_or_none info.ttl) 0 0 a b p q fields 0 0 body
        header_len

  abbrev built : Packet
  built = unsummed (0, 0, 0, 0) (0, 0, 0, 0) (two tcp.src_port) (two tcp.dst_port)

  abbrev addressed : Packet
  addressed = unsummed src dst (two sport) (two dport)

  length-body : length body ≡ length (option_data tcp) + n
  length-body =
      omega (arith, length-append (option_data tcp) (replicate n 0), length-replicate {A = ℕ} n 0)

  new_tcp_packet-eq :
      new_tcp_packet af_inet inbound info tcp n
      ≡ some (record {
        packet = built;
        win_nocheck = is_absent tcp.window;
        options_nocheck = is_absent tcp.tcp_options;
      })
  unfolding new_tcp_packet new_ip_packet ip_header_min_len set_packet_ip_header packet_new
      packet_append_header set_total_bytes ip_header set_ipv4_header tcp_header
  new_tcp_packet-eq = ground (arith, length-body, accepted)

  set_headers_tuple-eq :
      set_headers_tuple built (live_tuple_of sport dport src dst) ≡ some addressed
  unfolding set_headers_tuple set_addresses put_bytes
  set_headers_tuple-eq = refl

  checksum_packet-eq : checksum_packet addressed ≡ some finished
  unfolding checksum_packet checksum_ipv4_packet fill_in put16
  checksum_packet-eq = ground (arith, length-body)

  finished_tcp-eq :
      finished_tcp inbound info tcp n (live_tuple_of sport dport src dst) ≡ some finished
  unfolding finished_tcp
  finished_tcp-eq = ground (arith, new_tcp_packet-eq, set_headers_tuple-eq, checksum_packet-eq)

  -- What an accepted size of the options means for the header.
  header_len-bounds : (header_len / 4 % 2 ^ 4 * 2 ^ 4 / 16 * 4 ≡ header_len) × (header_len ≤ 60)
  unfolding is_tcp_refused
  header_len-bounds = (ground (arith, accepted), ground (arith, accepted))

  segment_sum-eq :
      segment_sum ≡ tcp_udp_v4_checksum (ip_list src) (ip_list dst) 6 (segment 0 0) (header_len + n)
  segment_sum-eq =
      let len : total_hi * 2 ^ 8 + total_lo - 20 ≡ header_len + n = omega arith in
      rw (len, take_all (header_len + n) (segment 0 0) (omega (arith, length-body))) refl

  segment-IsBytes : IsBytes (option_data tcp) → IsBytes (segment 0 0)
  segment-IsBytes options =
      let byte : flag_byte tcp.flags < 256 = flag_byte-bound tcp.flags in
      let rest : IsBytes body =
        append-IsBytes (option_data tcp) (replicate n 0) options (zeros-IsBytes n) in
      ground (arith, byte, rest)

  segment_verifies :
      AreBytes src
      → AreBytes dst
      → IsBytes (option_data tcp)
      → tcp_udp_v4_checksum
          (ip_list src)
          (ip_list dst)
          6
          (segment (segment_sum % 2 ^ 8) (segment_sum / 2 ^ 8))
          (header_len + n)
        ≡ 0
  unfolding put16
  segment_verifies s d options = rw segment_sum-eq (
      tcp_udp_v4_checksum-filled (ip_list src) (ip_list dst) 6 (header_len + n) (segment 0 0) 8
        (omega arith) (omega arith) (omega arith) (segment-IsBytes options) (omega arith)
        (omega (arith, length-body)) refl refl (omega arith))

  arrives :
      info.tos < 256
      → info.ttl < 256
      → AreBytes src
      → AreBytes dst
      → IsBytes (option_data tcp)
      → (p : Packet) × (finished_tcp inbound info tcp n (live_tuple_of sport dport src dst)
          ≡ some p)
        × (parse_packet (packet_new p.buffer) p.ip_bytes packet_layer_3_ip ≡ (p, packet_ok))
        × (tcp_udp_v4_checksum (ip_list src) (ip_list dst) 6 (drop 20 p.buffer) (header_len + n)
            ≡ 0)
  arrives tos ttl s d options = (
    finished,
    finished_tcp-eq,
    parse_packet_of_segment info.tos total_hi total_lo (ttl_or_none info.ttl) (header_sum % 2 ^ 8)
        (header_sum / 2 ^ 8) src dst (two sport) (two dport) fields (segment_sum % 2 ^ 8)
        (segment_sum / 2 ^ 8) body header_len (omega (arith, length-body)) header_len-bounds.0
        (omega arith) (omega (arith, length-body))
        (header_verifies info.tos total_hi total_lo (ttl_or_none info.ttl) 6 src dst tos
          (omega arith) (omega arith) (ground arith) (omega arith) s d),
    segment_verifies s d options,
  )

-- A built segment was not refused.
new_tcp_packet-accepted :
    (inbound : Bool) (info : IpInfo) (tcp : TcpSpec) (n : ℕ) (t : TcpPacket)
    → new_tcp_packet af_inet inbound info tcp n ≡ some t
    → is_tcp_refused inbound tcp
        (20 + length (option_data tcp))
        (20 + (20 + length (option_data tcp)) + n)
      ≡ false
unfolding new_tcp_packet ip_header_min_len
new_tcp_packet-accepted inbound info tcp n t built = ground (arith, built)

-- Every TCP segment over IPv4 that new_tcp_packet builds of fewer than 2^16 bytes, with options of whole bytes, given the live addresses and ports by set_headers_tuple and summed by checksum_packet, is parsed back from its bytes to the very packet, and its TCP checksum verifies.
pub tcp_segment_arrives :
    (inbound : Bool) (info : IpInfo) (tcp : TcpSpec) (n sport dport : ℕ) (src dst : ℕ × ℕ × ℕ × ℕ)
    (t : TcpPacket)
    → new_tcp_packet af_inet inbound info tcp n ≡ some t
    → 40 + length (option_data tcp) + n < 2 ^ 16
    → info.tos < 256
    → info.ttl < 256
    → AreBytes src
    → AreBytes dst
    → IsBytes (option_data tcp)
    → (p : Packet) × (finished_tcp inbound info tcp n (live_tuple_of sport dport src dst) ≡ some p)
      × (parse_packet (packet_new p.buffer) p.ip_bytes packet_layer_3_ip ≡ (p, packet_ok))
      × (tcp_udp_v4_checksum
            (ip_list src)
            (ip_list dst)
            6
            (drop 20 p.buffer)
            (20 + length (option_data tcp) + n)
          ≡ 0)
tcp_segment_arrives inbound info tcp n sport dport src dst t built fits =
    arrives inbound info tcp n sport dport src dst
      (new_tcp_packet-accepted inbound info tcp n t built) fits
