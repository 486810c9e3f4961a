-- ===== src/Building/Icmp/Echoed.antt =====
-- The live values of an ICMP packet that is injected: set_icmp_echoed_tuple and set_packet_tuple of app/src/main/cpp/socket.h, and map_inbound_icmp_packet of run_packet.c.
use qo_smos.Prelude.{
  ℕ, ◌+◌, ◌*◌, ◌^◌, Bool, not, ◌||◌, List, [], ◌++◌, Option, none, some, ltb, ◌==◌, if◌then◌else◌,
  length, get_or, get_elem?,
}
use qo_smos.Prelude.Words.{add32}
use qo_smos.Packet.{Packet}
use qo_smos.Socket.{Tuple, reverse_tuple}
use qo_smos.Building.{htons_bytes, htonl_bytes, have_length, put_bytes, set_headers_tuple}
use qo_smos.Building.Icmp.{is_tcp_or_udp}

-- Where a packet that is echoed in a buffer has its protocol, its addresses and the header behind.
pub record Places : Type 0 where
  pub protocol_at : ℕ
  pub addresses_at : ℕ
  pub layer4_at : ℕ
  pub address_bytes : ℕ

-- The IP header that is echoed behind the 8 bytes of an ICMP one.
unfoldable pub echoed_places : Packet → Option Places
echoed_places packet = elim packet.icmpv4 [
  | some i ↦ some (record {
    protocol_at = i + 17;
    addresses_at = i + 20;
    layer4_at = i + 28;
    address_bytes = 4;
  })
  | none ↦ elim packet.icmpv6 [
    | some i ↦ some (record {
      protocol_at = i + 14;
      addresses_at = i + 16;
      layer4_at = i + 48;
      address_bytes = 16;
    })
    | none ↦ none
  ]
]

-- The bytes of the header behind an echoed IP header that the tuple sets.
abbrev pub port_bytes : ℕ → ℕ
port_bytes protocol = if is_tcp_or_udp protocol then 4 else 0

abbrev pub ports_of : ℕ → Tuple → List ℕ
ports_of protocol tuple =
    if is_tcp_or_udp protocol
    then htons_bytes tuple.src.port (htons_bytes tuple.dst.port [])
    else []

-- `set_headers_tuple` at the echoed headers; `none` is a failed assert, or a read or write behind the buffer.
unfoldable pub set_echoed_headers : List ℕ → Places → Tuple → Option (List ℕ)
unfolding put_bytes
set_echoed_headers buffer places tuple = elim (get_elem? buffer places.protocol_at) [
  | none ↦ none
  | some protocol ↦
      if not (have_length places.address_bytes tuple)
        || ltb (length buffer) (places.layer4_at + port_bytes protocol)
      then none
      else some (
          put_bytes (put_bytes buffer places.addresses_at (tuple.src.ip ++ tuple.dst.ip))
            places.layer4_at (ports_of protocol tuple))
]

unfoldable pub set_icmp_echoed_tuple : Packet → Places → Tuple → Option Packet
unfolding set_echoed_headers
set_icmp_echoed_tuple packet places tuple =
    elim (set_echoed_headers packet.buffer places (reverse_tuple tuple)) [
      | none ↦ none
      | some buffer ↦ some (record packet { buffer = buffer })
    ]

unfoldable pub set_packet_tuple : Packet → Tuple → Option Packet
unfolding set_headers_tuple set_icmp_echoed_tuple echoed_places
set_packet_tuple packet tuple = elim (set_headers_tuple packet tuple) [
  | none ↦ none
  | some p ↦ elim (echoed_places p) [
    | none ↦ some p
    | some places ↦ set_icmp_echoed_tuple p places tuple
  ]
]

abbrev pub get32 : List ℕ → ℕ → ℕ
get32 buffer i =
    ((get_or buffer i 0 * 2 ^ 8 + get_or buffer (i + 1) 0) * 2 ^ 8 + get_or buffer (i + 2) 0)
      * 2 ^ 8
    + get_or buffer (i + 3) 0

-- The offset of the sequence number that a TCP header echoed has; the flag is the packet's `echoed_header`.
unfoldable pub map_inbound_icmp_packet : Bool → ℕ → Packet → Option Packet
unfolding echoed_places put_bytes
map_inbound_icmp_packet echoed_header seq_offset packet =
    if not echoed_header then some packet else elim (echoed_places packet) [
      | none ↦ none
      | some places ↦ elim (get_elem? packet.buffer places.protocol_at) [
        | none ↦ none
        | some protocol ↦
            let seq = get32 packet.buffer (places.layer4_at + 4) in
            let mapped =
              put_bytes packet.buffer (places.layer4_at + 4)
                (htonl_bytes (add32 seq seq_offset) []) in
            if protocol == 6
            then (if ltb (length packet.buffer) (places.layer4_at + 8)
                then none
                else some (record packet { buffer = mapped }))
            else if protocol == 17
            then some packet
            else none
      ]
    ]
