-- ===== src/Building/Icmp.antt =====
-- The builder of ICMP packets in app/src/main/cpp/icmp_packet.c.
pub mod Names
pub mod Types
pub mod Built
pub mod Echoed
pub mod Message
pub mod Injected
use qo_smos.Prelude.{
  ℕ, ◌+◌, ◌-◌, ◌*◌, ◌/◌, ◌%◌, ◌^◌, Bool, true, false, not, ◌&&◌, ◌||◌, List, [], ◌∷◌, ◌++◌, Option,
  none, some, ltb, leb, ◌==◌, if◌then◌else◌, length, replicate,
}
use qo_smos.Prelude.Int.{ℤ, pos, negsuc}
use qo_smos.Packet.{
  header_icmpv4, header_icmpv6, Packet, packet_new, packet_append_header, set_total_bytes,
}
use qo_smos.Address.{Family, af_inet, af_inet6}
use qo_smos.Building.{IpInfo, htons_bytes, htonl_bytes, ip_header, ip_header_min_len, new_ip_packet}
use qo_smos.Building.Icmp.Types.{parse_icmp_type_and_code}

unfoldable pub icmp_protocol : Family → ℕ
icmp_protocol af_inet = 1
icmp_protocol af_inet6 = 58

-- The 4 bytes behind the checksum without an MTU.
abbrev pub echo_message : ℕ → List ℕ
echo_message echo_id = htons_bytes echo_id (0 ∷ 0 ∷ [])

-- The 8 bytes of the header; `none` is an error. A negative MTU is none.
unfoldable pub set_icmpv4_header : ℕ → ℕ → ℤ → ℕ → Option (List ℕ)
set_icmpv4_header type code (negsuc m) echo_id = some (type ∷ code ∷ 0 ∷ 0 ∷ echo_message echo_id)
set_icmpv4_header type code (pos mtu) echo_id =
    if (type == 3) && (code == 4) && leb mtu 65535
    then some (type ∷ code ∷ 0 ∷ 0 ∷ htons_bytes echo_id (htons_bytes mtu []))
    else none

-- An echo id that is not 0 overwrites the upper half of the MTU.
unfoldable pub set_icmpv6_header : ℕ → ℕ → ℤ → ℕ → Option (List ℕ)
set_icmpv6_header type code (negsuc m) echo_id = some (type ∷ code ∷ 0 ∷ 0 ∷ echo_message echo_id)
set_icmpv6_header type code (pos mtu) echo_id =
    let upper = if echo_id == 0 then mtu / 2 ^ 16 else echo_id in
    if (type == 2) && (code == 0) && leb mtu 4294967295
    then some (type ∷ code ∷ 0 ∷ 0 ∷ htons_bytes upper (htons_bytes mtu []))
    else none

unfoldable pub set_icmp_header : Family → ℕ → ℕ → ℤ → ℕ → Option (List ℕ)
unfolding set_icmpv4_header set_icmpv6_header
set_icmp_header af_inet = set_icmpv4_header
set_icmp_header af_inet6 = set_icmpv6_header

-- The pointer and the header of `icmp_bytes` bytes behind the IP header.
unfoldable pub set_packet_icmp_header : Packet → Family → ℕ → ℕ → Option Packet
unfolding packet_append_header set_total_bytes
set_packet_icmp_header packet af_inet start icmp_bytes =
    elim (packet_append_header (record packet { icmpv4 = some start }) header_icmpv4 8) [
      | none ↦ none
      | some p ↦ some (record p { headers = set_total_bytes p.headers icmp_bytes })
    ]
set_packet_icmp_header packet af_inet6 start icmp_bytes =
    elim (packet_append_header (record packet { icmpv6 = some start }) header_icmpv6 8) [
      | none ↦ none
      | some p ↦ some (record p { headers = set_total_bytes p.headers icmp_bytes })
    ]

-- `layer4_header_len` of TCP, or else of UDP.
abbrev pub layer4_header_len : ℕ → ℕ
layer4_header_len protocol = if protocol == 6 then 20 else 8

abbrev pub is_tcp_or_udp : ℕ → Bool
is_tcp_or_udp protocol = (protocol == 6) || (protocol == 17)

-- The size of the ICMP header and what follows it: the IP header of the packet that it reports with 8
-- bytes behind it, or a raw payload that the header is a part of.
unfoldable pub icmp_size : Family → ℕ → ℕ → ℕ
unfolding ip_header_min_len
icmp_size family protocol payload_bytes =
    if is_tcp_or_udp protocol
    then 8 + (ip_header_min_len family + 8)
    else if protocol == 255
    then payload_bytes
    else 0

-- What stands behind the ICMP header; the first bytes of a TCP header have its sequence number.
unfoldable pub echoed : Family → ℕ → ℕ → ℕ → Option (List ℕ)
unfolding ip_header ip_header_min_len
echoed family protocol tcp_start_sequence payload_bytes =
    let echoed_ip_bytes = ip_header_min_len family + layer4_header_len protocol + payload_bytes in
    let layer4 =
      0
      ∷ 0
      ∷ 0
      ∷ 0
      ∷ (if protocol == 6 then htonl_bytes tcp_start_sequence [] else 0 ∷ 0 ∷ 0 ∷ 0 ∷ []) in
    if is_tcp_or_udp protocol
    then ip_header family (record { tos = 0; flow_label = 0; ttl = 0 }) echoed_ip_bytes protocol
        layer4
    else some (replicate (payload_bytes - 8) 0)

-- An id in 16 bits.
unfoldable pub echo_id_of : ℤ → Option ℕ
echo_id_of (pos n) = if leb n 65535 then some n else none
echo_id_of (negsuc n) = none

-- A size that is less than the header's as an int.
abbrev pub is_short : ℕ → Bool
is_short icmp_bytes = ltb icmp_bytes 8 || leb (2 ^ 31) icmp_bytes

-- The packet of the parsed parts.
unfoldable pub assembled_icmp : Family → IpInfo → ℕ → List ℕ → List ℕ → Option Packet
unfolding new_ip_packet ip_header_min_len icmp_protocol set_packet_icmp_header
assembled_icmp family info icmp_bytes header behind =
    let ip_header_bytes = ip_header_min_len family in
    let ip_bytes = ip_header_bytes + icmp_bytes in
    elim (new_ip_packet family info ip_bytes (icmp_protocol family) (header ++ behind)) [
      | none ↦ none
      | some with_ip ↦ elim (set_packet_icmp_header with_ip family ip_header_bytes icmp_bytes) [
        | none ↦ none
        | some p ↦ some (record p { ip_bytes = ip_bytes })
      ]
    ]

-- `none` is an error or the failed assert on the size of an IPv6 header.
unfoldable pub new_icmp_packet :
    Family → List ℕ → Option (List ℕ) → ℕ → ℕ → ℕ → IpInfo → ℤ → ℤ → Option Packet
unfolding echo_id_of icmp_size parse_icmp_type_and_code set_icmp_header echoed assembled_icmp
new_icmp_packet family type_string code_string protocol tcp_start_sequence payload_bytes info mtu
      echo_id =
    let icmp_bytes = icmp_size family protocol payload_bytes in
    elim (echo_id_of echo_id) [
      | none ↦ none
      | some id ↦
          if is_short icmp_bytes
          then none
          else elim (parse_icmp_type_and_code family type_string code_string) [
            | none ↦ none
            | some (type, code) ↦ elim (set_icmp_header family type code mtu id) [
              | none ↦ none
              | some header ↦ elim (echoed family protocol tcp_start_sequence payload_bytes) [
                | none ↦ none
                | some behind ↦ assembled_icmp family info icmp_bytes header behind
              ]
            ]
          ]
    ]
