-- ===== src/Building.antt =====
-- The builders of packets in app/src/main/cpp/udp_packet.c, tcp_packet.c and ip_packet.c, the addresses that socket.h writes into them, and checksum_packet of packet_checksum.c.
pub mod Header
pub mod Datagram
pub mod Segment
pub mod Icmp
use qo_smos.Prelude.{
  ℕ, ◌+◌, ◌-◌, ◌*◌, ◌/◌, ◌%◌, ◌^◌, Bool, true, false, not, ◌&&◌, ◌||◌, List, [], ◌∷◌, ◌++◌, Option,
  none, some, ltb, leb, ◌==◌, if◌then◌else◌, length, get_or, take, drop, replicate, set,
}
use qo_smos.Packet.{
  HeaderType, header_ipv4, header_ipv6, header_tcp, header_udp, Packet, packet_new,
  packet_append_header, set_total_bytes,
}
use qo_smos.Checksum.{ipv4_checksum, tcp_udp_v4_checksum, tcp_udp_v6_checksum}
use qo_smos.Checksum.Fill.{put16}
use qo_smos.Address.{Family, af_inet, af_inet6}
use qo_smos.Socket.{Tuple}

-- `struct ip_info`, without what the comparison of TOS fields uses
pub record IpInfo : Type 0 where
  pub tos : ℕ
  pub flow_label : ℕ
  pub ttl : ℕ

-- `htons` of a `u16`, as two bytes
abbrev pub htons_bytes : ℕ → List ℕ → List ℕ
htons_bytes n rest = n / 2 ^ 8 % 2 ^ 8 ∷ n % 2 ^ 8 ∷ rest

-- TTL_CHECK_NONE where the script gives no TTL.
abbrev pub ttl_or_none : ℕ → ℕ
ttl_or_none ttl = if ttl == 0 then 255 else ttl

-- The 20 bytes of a header with any addresses, in front of `rest`.
unfoldable pub set_ipv4_header : ℕ → ℕ → ℕ → ℕ → List ℕ → List ℕ
set_ipv4_header ip_bytes tos ttl protocol rest =
    0x45
    ∷ tos
    ∷ htons_bytes ip_bytes
        (0 ∷ 0 ∷ 0 ∷ 0 ∷ ttl_or_none ttl ∷ protocol ∷ 0 ∷ 0 ∷ 0 ∷ 0 ∷ 0 ∷ 0 ∷ 0 ∷ 0 ∷ 0 ∷ 0 ∷ rest)

-- The 40 bytes of a header, whose size is an u16; `none` is its failed assert.
unfoldable pub set_ipv6_header : ℕ → ℕ → ℕ → ℕ → ℕ → List ℕ → Option (List ℕ)
set_ipv6_header ip_bytes tos flow_label hop_limit protocol rest =
    let size = ip_bytes % 2 ^ 16 in
    if ltb size 40
    then none
    else some (
        (6 * 2 ^ 4 + tos / 2 ^ 4)
        ∷ (tos % 2 ^ 4 * 2 ^ 4 + flow_label / 2 ^ 16 % 2 ^ 4)
        ∷ htons_bytes flow_label
            (htons_bytes (size - 40) (protocol ∷ ttl_or_none hop_limit ∷ (replicate 32 0 ++ rest))))

unfoldable pub ip_header_min_len : Family → ℕ
ip_header_min_len af_inet = 20
ip_header_min_len af_inet6 = 40

-- The pointers to the header, and the header appended, of a packet whose buffer has it; the buffer has room
-- for it, or `none` is an access through a null pointer.
unfoldable pub set_packet_ip_header : Packet → Family → ℕ → Option Packet
unfolding packet_append_header set_total_bytes
set_packet_ip_header packet af_inet ip_bytes =
    elim (packet_append_header (record packet { ipv4 = some 0 }) header_ipv4 20) [
      | none ↦ none
      | some p ↦ some (record p { headers = set_total_bytes p.headers (ip_bytes % 2 ^ 16) })
    ]
set_packet_ip_header packet af_inet6 ip_bytes =
    elim (packet_append_header (record packet { ipv6 = some 0 }) header_ipv6 40) [
      | none ↦ none
      | some p ↦ some (record p { headers = set_total_bytes p.headers (ip_bytes % 2 ^ 16) })
    ]

unfoldable pub ip_header : Family → IpInfo → ℕ → ℕ → List ℕ → Option (List ℕ)
unfolding set_ipv4_header set_ipv6_header
ip_header af_inet info ip_bytes protocol rest =
    some (set_ipv4_header ip_bytes info.tos info.ttl protocol rest)
ip_header af_inet6 info ip_bytes protocol rest =
    set_ipv6_header ip_bytes info.tos info.flow_label info.ttl protocol rest

-- A new packet with the IP header, and `rest` behind it.
unfoldable pub new_ip_packet : Family → IpInfo → ℕ → ℕ → List ℕ → Option Packet
unfolding ip_header packet_new set_packet_ip_header packet_append_header set_total_bytes
new_ip_packet family info ip_bytes protocol rest =
    elim (ip_header family info ip_bytes protocol rest) [
      | none ↦ none
      | some buffer ↦ set_packet_ip_header (packet_new buffer) family ip_bytes
    ]

unfoldable pub udp_header : ℕ → ℕ → ℕ → List ℕ → List ℕ
udp_header src_port dst_port len rest =
    htons_bytes src_port (htons_bytes dst_port (htons_bytes len (0 ∷ 0 ∷ rest)))

-- `none` is the error of a datagram that is too large, or the failed assert.
unfoldable pub new_udp_packet : Family → IpInfo → ℕ → ℕ → ℕ → Option Packet
unfolding ip_header_min_len udp_header new_ip_packet packet_append_header set_total_bytes
new_udp_packet family info udp_payload_bytes src_port dst_port =
    let ip_header_bytes = ip_header_min_len family in
    let udp_bytes = 8 + udp_payload_bytes in
    let ip_bytes = ip_header_bytes + udp_bytes in
    let udp = udp_header src_port dst_port udp_bytes (replicate udp_payload_bytes 0) in
    if ltb (64 * 1024) ip_bytes then none else elim (new_ip_packet family info ip_bytes 17 udp) [
      | none ↦ none
      | some with_ip ↦ elim (packet_append_header with_ip header_udp 8) [
        | none ↦ none
        | some p ↦ some (record p {
          headers = set_total_bytes p.headers udp_bytes;
          udp = some ip_header_bytes;
          ip_bytes = ip_bytes;
        })
      ]
    ]

abbrev pub htonl_bytes : ℕ → List ℕ → List ℕ
htonl_bytes n rest = htons_bytes (n / 2 ^ 16) (htons_bytes n rest)

-- Whether a character stands in a text, as `strchr` tells.
unfoldable pub strchr : ℕ → List ℕ → Bool
strchr c [] = false
strchr c (x ∷ xs) = (c == x) || strchr c xs

-- "FSRP.EWCU"
abbrev pub valid_tcp_flags : List ℕ
valid_tcp_flags = b'F' ∷ b'S' ∷ b'R' ∷ b'P' ∷ b'.' ∷ b'E' ∷ b'W' ∷ b'C' ∷ b'U' ∷ []

unfoldable pub is_tcp_flags_spec_valid : List ℕ → Bool
unfolding strchr
is_tcp_flags_spec_valid [] = true
is_tcp_flags_spec_valid (c ∷ cs) = strchr c valid_tcp_flags && is_tcp_flags_spec_valid cs

-- The bit of a flag.
unfoldable pub is_tcp_flag_set : ℕ → List ℕ → ℕ → ℕ
unfolding strchr
is_tcp_flag_set c flags bit = if strchr c flags then bit else 0

unfoldable pub flag_byte : List ℕ → ℕ
unfolding is_tcp_flag_set
flag_byte flags =
    is_tcp_flag_set b'F' flags 1
    + is_tcp_flag_set b'S' flags 2
    + is_tcp_flag_set b'R' flags 4
    + is_tcp_flag_set b'P' flags 8
    + is_tcp_flag_set b'.' flags 16
    + is_tcp_flag_set b'U' flags 32
    + is_tcp_flag_set b'E' flags 64
    + is_tcp_flag_set b'W' flags 128

-- What the script gives for a TCP header. No window stands for -1.
pub record TcpSpec : Type 0 where
  pub src_port : ℕ
  pub dst_port : ℕ
  pub flags : List ℕ
  pub start_sequence : ℕ
  pub ack_sequence : ℕ
  pub window : Option ℕ
  pub urg_ptr : ℕ
  pub tcp_options : Option (List ℕ)

abbrev pub option_data : TcpSpec → List ℕ
option_data tcp = elim tcp.tcp_options [ none ↦ [] | some options ↦ options ]

abbrev pub window_or_zero : TcpSpec → ℕ
window_or_zero tcp = elim tcp.window [ none ↦ 0 | some window ↦ window ]

unfoldable pub tcp_header : TcpSpec → ℕ → List ℕ → List ℕ
unfolding flag_byte
tcp_header tcp header_bytes rest = htons_bytes tcp.src_port (
    htons_bytes tcp.dst_port (
      htonl_bytes tcp.start_sequence (
        htonl_bytes tcp.ack_sequence (
          header_bytes / 4 % 2 ^ 4 * 2 ^ 4
          ∷ flag_byte tcp.flags
          ∷ htons_bytes (window_or_zero tcp) (0 ∷ 0 ∷ htons_bytes tcp.urg_ptr rest)))))

-- A packet with its FLAG_WIN_NOCHECK and FLAG_OPTIONS_NOCHECK.
pub record TcpPacket : Type 0 where
  pub packet : Packet
  pub win_nocheck : Bool
  pub options_nocheck : Bool

abbrev pub is_absent : {A : Type 0} → Option A → Bool
is_absent none = true
is_absent (some x) = false

-- The errors of the sizes, the flags and the window.
unfoldable pub is_tcp_refused : Bool → TcpSpec → ℕ → ℕ → Bool
unfolding is_tcp_flags_spec_valid
is_tcp_refused inbound tcp tcp_header_bytes ip_bytes =
    not (length (option_data tcp) % 4 == 0)
    || ltb 60 tcp_header_bytes
    || ltb (64 * 1024) ip_bytes
    || not (is_tcp_flags_spec_valid tcp.flags)
    || (is_absent tcp.window && inbound)

-- `none` is an error, or the failed assert.
unfoldable pub new_tcp_packet : Family → Bool → IpInfo → TcpSpec → ℕ → Option TcpPacket
unfolding ip_header_min_len tcp_header new_ip_packet packet_append_header set_total_bytes
    is_tcp_refused
new_tcp_packet family inbound info tcp tcp_payload_bytes =
    let ip_header_bytes = ip_header_min_len family in
    let tcp_header_bytes = 20 + length (option_data tcp) in
    let ip_bytes = ip_header_bytes + tcp_header_bytes + tcp_payload_bytes in
    let segment =
      tcp_header tcp tcp_header_bytes (option_data tcp ++ replicate tcp_payload_bytes 0) in
    if is_tcp_refused inbound tcp tcp_header_bytes ip_bytes
    then none
    else elim (new_ip_packet family info ip_bytes 6 segment) [
      | none ↦ none
      | some with_ip ↦ elim (packet_append_header with_ip header_tcp tcp_header_bytes) [
        | none ↦ none
        | some p ↦ some (record {
          packet = record p {
            headers = set_total_bytes p.headers (tcp_header_bytes + tcp_payload_bytes);
            tcp = some ip_header_bytes;
            ip_bytes = ip_bytes;
          };
          win_nocheck = is_absent tcp.window;
          options_nocheck = is_absent tcp.tcp_options;
        })
      ]
    ]

unfoldable pub put_bytes : List ℕ → ℕ → List ℕ → List ℕ
put_bytes buffer i [] = buffer
put_bytes buffer i (b ∷ bs) = put_bytes (set buffer i b) (i + 1) bs

-- `ip_to_ipv4` and `ip_to_ipv6` assert that an address is of their family.
abbrev pub have_length : ℕ → Tuple → Bool
have_length n tuple = (length tuple.src.ip == n) && (length tuple.dst.ip == n)

-- `none` is a failed assert.
unfoldable pub set_addresses : Packet → Tuple → Option (List ℕ)
unfolding put_bytes
set_addresses packet tuple = elim packet.ipv4 [
  | some p ↦
      if have_length 4 tuple
      then some (put_bytes packet.buffer (p + 12) (tuple.src.ip ++ tuple.dst.ip))
      else none
  | none ↦ elim packet.ipv6 [
    | some p ↦
        if have_length 16 tuple
        then some (put_bytes packet.buffer (p + 8) (tuple.src.ip ++ tuple.dst.ip))
        else none
    | none ↦ none
  ]
]

-- The ports of a TCP header, or else of a UDP one, at the same place.
abbrev pub ports_at : Packet → Option ℕ
ports_at packet = elim packet.tcp [ some t ↦ some t | none ↦ packet.udp ]

unfoldable pub set_headers_tuple : Packet → Tuple → Option Packet
unfolding set_addresses put_bytes
set_headers_tuple packet tuple = elim (set_addresses packet tuple) [
  | none ↦ none
  | some buffer ↦ elim (ports_at packet) [
    | none ↦ some (record packet { buffer = buffer })
    | some i ↦ some (record packet {
      buffer = put_bytes buffer i (htons_bytes tuple.src.port (htons_bytes tuple.dst.port []));
    })
  ]
]

abbrev pub get16 : List ℕ → ℕ → ℕ
get16 buffer i = get_or buffer i 0 * 2 ^ 8 + get_or buffer (i + 1) 0

-- A field of two bytes at `field` gets the checksum of the `len` bytes from `start` with zero in the field.
unfoldable pub fill_in : (List ℕ → ℕ) → List ℕ → ℕ → ℕ → ℕ → List ℕ
unfolding put16
fill_in checksum buffer start len field =
    let cleared = put16 buffer field 0 in
    put16 cleared field (checksum (take len (drop start cleared)))

-- `none` is a failed assert.
unfoldable pub checksum_ipv4_packet : Packet → ℕ → Option Packet
unfolding fill_in ipv4_checksum tcp_udp_v4_checksum
checksum_ipv4_packet packet p =
    let header_len = get_or packet.buffer p 0 % 2 ^ 4 * 4 in
    let buffer = fill_in ipv4_checksum packet.buffer p header_len (p + 10) in
    let tot_len = get16 buffer (p + 2) in
    let l4_bytes = tot_len - header_len in
    let sum = λ (protocol : ℕ) (segment : List ℕ).
      tcp_udp_v4_checksum (take 4 (drop (p + 12) buffer)) (take 4 (drop (p + 16) buffer)) protocol
        segment l4_bytes in
    if ltb packet.ip_bytes tot_len || leb tot_len header_len then none else elim packet.tcp [
      | some t ↦ some (record packet { buffer = fill_in (sum 6) buffer t l4_bytes (t + 16) })
      | none ↦ elim packet.udp [
        | some u ↦ some (record packet { buffer = fill_in (sum 17) buffer u l4_bytes (u + 6) })
        | none ↦ elim packet.icmpv4 [
          | some i ↦
              some (record packet { buffer = fill_in ipv4_checksum buffer i l4_bytes (i + 2) })
          | none ↦ none
        ]
      ]
    ]

unfoldable pub checksum_ipv6_packet : Packet → ℕ → Option Packet
unfolding fill_in tcp_udp_v6_checksum
checksum_ipv6_packet packet p =
    let buffer = packet.buffer in
    let l4_bytes = get16 buffer (p + 4) in
    let sum = λ (protocol : ℕ) (segment : List ℕ).
      tcp_udp_v6_checksum (take 16 (drop (p + 8) buffer)) (take 16 (drop (p + 24) buffer)) protocol
        segment l4_bytes in
    if ltb packet.ip_bytes (40 + l4_bytes) || l4_bytes == 0 then none else elim packet.tcp [
      | some t ↦ some (record packet { buffer = fill_in (sum 6) buffer t l4_bytes (t + 16) })
      | none ↦ elim packet.udp [
        | some u ↦ some (record packet { buffer = fill_in (sum 17) buffer u l4_bytes (u + 6) })
        | none ↦ elim packet.icmpv6 [
          | some i ↦ some (record packet { buffer = fill_in (sum 58) buffer i l4_bytes (i + 2) })
          | none ↦ none
        ]
      ]
    ]

unfoldable pub checksum_packet : Packet → Option Packet
unfolding checksum_ipv4_packet checksum_ipv6_packet
checksum_packet packet = elim packet.ipv4 [
  | some p ↦ checksum_ipv4_packet packet p
  | none ↦ elim packet.ipv6 [ some p ↦ checksum_ipv6_packet packet p | none ↦ none ]
]
