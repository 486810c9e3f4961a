-- ===== src/Packet/Copy.antt =====
-- Copies and encapsulation of packets in app/src/main/cpp/packet.c, with the functions of ip_packet.c,
-- gre_packet.c and mpls_packet.c that finish a header. `none` is a failed assert, a null pointer, or a
-- read or write outside a buffer.
pub mod Finishing
pub mod Encapsulation
use qo_smos.Prelude.{
  ℕ, zero, suc, ◌+◌, ◌-◌, ◌*◌, ◌/◌, ◌%◌, ◌^◌, Bool, true, false, not, ◌||◌, List, [], ◌∷◌, ◌++◌,
  map, Option, none, some, ltb, ◌==◌, if◌then◌else◌, length, get_or, set, take, drop,
}
use qo_smos.Prelude.Words.{u16_mod}
use qo_smos.Packet.{
  HeaderType, header_ipv4, header_ipv6, header_gre, header_mpls, header_tcp, header_udp,
  header_icmpv4, header_icmpv6, Header, Packet, packet_max_headers, packet_new, packet_header_count,
}
use qo_smos.Checksum.{ipv4_checksum}
use qo_smos.Checksum.Fill.{put16}
use qo_smos.Parser.Checks.{gre_len, is_gre_supported}

-- The copied headers, at their offsets from the new base.
unfoldable pub packet_copy_headers : List Header → ℕ → List Header
packet_copy_headers headers bytes_headroom =
    map {A = Header} (λ h. record h { ptr = bytes_headroom + h.ptr }) headers

-- A pointer into the old buffer as one into the new.
unfoldable pub offset_ptr : ℕ → Option ℕ → Option ℕ
offset_ptr new_base none = none
offset_ptr new_base (some p) = some (new_base + p)

unfoldable pub packet_duplicate_info : Packet → Packet → ℕ → ℕ → Packet
unfolding packet_copy_headers offset_ptr
packet_duplicate_info packet old_packet bytes_headroom extra_payload = record packet {
  ip_bytes = old_packet.ip_bytes + extra_payload;
  headers = packet_copy_headers old_packet.headers bytes_headroom;
  ipv4 = offset_ptr bytes_headroom old_packet.ipv4;
  ipv6 = offset_ptr bytes_headroom old_packet.ipv6;
  tcp = offset_ptr bytes_headroom old_packet.tcp;
  udp = offset_ptr bytes_headroom old_packet.udp;
  icmpv4 = offset_ptr bytes_headroom old_packet.icmpv4;
  icmpv6 = offset_ptr bytes_headroom old_packet.icmpv6;
}

-- `packet_start`: the first byte of the outermost header.
unfoldable pub packet_start : List Header → Option ℕ
packet_start [] = none
packet_start (h ∷ hs) = some h.ptr

-- `headroom` is what `malloc` leaves in the bytes before the copy.
unfoldable pub packet_copy_with_headroom : Packet → List ℕ → Option Packet
unfolding packet_duplicate_info packet_new packet_start
packet_copy_with_headroom old_packet headroom = elim (packet_start old_packet.headers) [
  | none ↦ none
  | some start ↦
      let bytes_used = start + old_packet.ip_bytes in
      if ltb (128 * 1024) bytes_used || ltb (length old_packet.buffer) bytes_used
      then none
      else some (
          packet_duplicate_info (packet_new (headroom ++ take bytes_used old_packet.buffer))
            old_packet (length headroom) 0)
]

unfoldable pub packet_copy : Packet → Option Packet
unfolding packet_copy_with_headroom
packet_copy old_packet = packet_copy_with_headroom old_packet []

-- `header_type_info(type)->ip_proto`, and the EtherType beside it.
unfoldable pub ip_proto : HeaderType → ℕ
ip_proto header_ipv4 = 4
ip_proto header_ipv6 = 41
ip_proto header_gre = 47
ip_proto header_mpls = 0
ip_proto header_tcp = 6
ip_proto header_udp = 17
ip_proto header_icmpv4 = 1
ip_proto header_icmpv6 = 58

unfoldable pub eth_proto : HeaderType → ℕ
eth_proto header_ipv4 = 0x0800
eth_proto header_ipv6 = 0x86dd
eth_proto header_mpls = 0x8847
eth_proto _ = 0

-- `htons` on a `u16` field.
abbrev pub put_be16 : List ℕ → ℕ → ℕ → List ℕ
put_be16 buffer p v = set (set buffer p (v % u16_mod / 2 ^ 8)) (p + 1) (v % 2 ^ 8)

unfoldable pub ipv4_header_finish : List ℕ → Header → Header → Option (List ℕ × Header)
unfolding put16 ipv4_checksum ip_proto
ipv4_header_finish buffer header next_inner =
    let p = header.ptr in
    let ip_bytes = 20 + next_inner.total_bytes in
    let named = set (put_be16 buffer (p + 2) ip_bytes) (p + 9) (ip_proto next_inner.type) in
    let cleared = put16 named (p + 10) 0 in
    let header_bytes = get_or buffer p 0 % 2 ^ 4 * 4 in
    if ltb (length buffer) (p + 12) || ltb (length buffer) (p + header_bytes)
    then none
    else some (
      put16 cleared (p + 10) (ipv4_checksum (take header_bytes (drop p cleared))),
      record header { total_bytes = ip_bytes },
    )

unfoldable pub ipv6_header_finish : List ℕ → Header → Header → Option (List ℕ × Header)
unfolding ip_proto
ipv6_header_finish buffer header next_inner =
    let p = header.ptr in
    if ltb 0xffff next_inner.total_bytes || ltb (length buffer) (p + 7)
    then none
    else some (
      set (put_be16 buffer (p + 4) next_inner.total_bytes) (p + 6) (ip_proto next_inner.type),
      record header { total_bytes = 40 + next_inner.total_bytes },
    )

abbrev pub gre_flags_at : List ℕ → ℕ → ℕ
gre_flags_at buffer p = get_or buffer p 0 * 2 ^ 8 + get_or buffer (p + 1) 0

unfoldable pub gre_header_finish : List ℕ → Header → Header → Option (List ℕ × Header)
unfolding gre_len eth_proto
gre_header_finish buffer header next_inner =
    let p = header.ptr in
    let flags = gre_flags_at buffer p in
    if ltb (length buffer) (p + 4) || not (is_gre_supported flags)
    then none
    else some (
      put_be16 buffer (p + 2) (eth_proto next_inner.type),
      record header { total_bytes = gre_len flags + next_inner.total_bytes },
    )

unfoldable pub mpls_header_finish : Header → Header → Header
mpls_header_finish header next_inner = record header {
  total_bytes = header.header_bytes + next_inner.total_bytes;
}

-- `type_info->finish`, which is null from layer 4 on.
unfoldable pub finish : List ℕ → Header → Option Header → HeaderType → Option (List ℕ × Header)
unfolding ipv4_header_finish ipv6_header_finish gre_header_finish mpls_header_finish
finish buffer header (some next) header_ipv4 = ipv4_header_finish buffer header next
finish buffer header (some next) header_ipv6 = ipv6_header_finish buffer header next
finish buffer header (some next) header_gre = gre_header_finish buffer header next
finish buffer header (some next) header_mpls = some (buffer, mpls_header_finish header next)
finish buffer header none header_ipv4 = none
finish buffer header none header_ipv6 = none
finish buffer header none header_gre = none
finish buffer header none header_mpls = none
finish buffer header next layer4 = some (buffer, header)

abbrev pub first_of : List Header → Option Header
first_of [] = none
first_of (h ∷ hs) = some h

-- A round of the loop, behind those for the headers inside.
unfoldable pub finish_outer : Header → Option (List ℕ × List Header) → Option (List ℕ × List Header)
unfolding finish
finish_outer h none = none
finish_outer h (some (buffer, inner)) = elim (finish buffer h (first_of inner) h.type) [
  | none ↦ none
  | some (buffer', h') ↦ some (buffer', h' ∷ inner)
]

-- The loop from the inner headers to the outer.
unfoldable pub packet_finish_encapsulation_headers :
    List ℕ → List Header → Option (List ℕ × List Header)
unfolding finish_outer
packet_finish_encapsulation_headers buffer [] = some (buffer, [])
packet_finish_encapsulation_headers buffer (h ∷ hs) =
    finish_outer h (packet_finish_encapsulation_headers buffer hs)

-- The outer packet's bytes fill the headroom, and its headers go before the inner ones.
unfoldable pub packet_encapsulate : Packet → Packet → Option Packet
unfolding packet_copy_with_headroom packet_copy_headers packet_finish_encapsulation_headers
packet_encapsulate outer inner =
    if ltb packet_max_headers (packet_header_count outer + packet_header_count inner)
      || ltb (length outer.buffer) outer.ip_bytes
    then none
    else elim (packet_copy_with_headroom inner (take outer.ip_bytes outer.buffer)) [
      | none ↦ none
      | some packet ↦
          elim (packet_finish_encapsulation_headers packet.buffer
            (packet_copy_headers outer.headers 0 ++ packet.headers)) [
              | none ↦ none
              | some (buffer, headers) ↦ some (record packet {
                buffer = buffer;
                headers = headers;
                ip_bytes = outer.ip_bytes + inner.ip_bytes;
              })
            ]
    ]
