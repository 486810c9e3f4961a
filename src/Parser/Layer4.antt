-- ===== src/Parser/Layer4.antt =====
-- Recording a header, and the four headers that end a packet.
use qo_smos.Prelude.{ℕ, ◌+◌, ◌*◌, ◌/◌, none, some, ltb, leb, List}
use qo_smos.Packet.{
  HeaderType, header_tcp, header_udp, header_icmpv4, header_icmpv6, Packet, packet_append_header,
  set_total_bytes,
}
use qo_smos.Parser.Outcome.{
  packet_ok, packet_bad, Checked, pass, halt, Reason, Parsed, ◌>>=◌, ◌>>◌, refuse, assert, read8,
  read16,
}

-- `packet_append_header`, the error if it gives NULL, and the header's `total_bytes`; then the rest.
unfoldable pub append : Packet → HeaderType → ℕ → ℕ → Reason → (Packet → Parsed) → Parsed
append packet type header_bytes total_bytes too_many rest =
    elim (packet_append_header packet type header_bytes) [
      | none ↦ (packet, packet_bad too_many)
      | some p ↦ rest (record p { headers = set_total_bytes p.headers total_bytes })
    ]

-- `p += layer4_bytes; assert(p <= packet_end); return PACKET_OK;`
abbrev pub layer4_end : ℕ → ℕ → ℕ → Packet → Parsed
layer4_end packet_end start bytes packet = elim (assert (leb (start + bytes) packet_end)) [
  | halt r ↦ (packet, r)
  | pass u ↦ (packet, packet_ok)
]

-- The length of the TCP header, options included.
unfoldable pub check_tcp : List ℕ → ℕ → ℕ → Checked ℕ
check_tcp buffer start bytes = do
  offset ← read8 buffer (start + 12)
  let len = offset / 16 * 4
  refuse (ltb len 20) Reason.tcp_offset_too_small
  refuse (ltb bytes len) Reason.tcp_offset_too_big
  pass len

unfoldable pub parse_tcp : ℕ → Packet → ℕ → ℕ → Parsed
unfolding check_tcp append
parse_tcp packet_end packet start bytes = elim (refuse (ltb bytes 20) Reason.truncated_tcp) [
  | halt r ↦ (packet, r)
  | pass u ↦
      let packet' = record packet { tcp = some start } in
      elim (check_tcp packet.buffer start bytes) [
        | halt r ↦ (packet', r)
        | pass len ↦
            append packet' header_tcp len bytes Reason.too_many_headers_tcp
              (layer4_end packet_end start bytes)
      ]
]

unfoldable pub check_udp : List ℕ → ℕ → ℕ → Checked (Unit {0})
check_udp buffer start bytes = do
  udp_len ← read16 buffer (start + 4)
  refuse (ltb udp_len 8) Reason.udp_too_small_for_header
  refuse (ltb udp_len bytes) Reason.udp_too_small
  refuse (ltb bytes udp_len) Reason.udp_too_big

unfoldable pub parse_udp : ℕ → Packet → ℕ → ℕ → Parsed
unfolding check_udp append
parse_udp packet_end packet start bytes = elim (refuse (ltb bytes 8) Reason.truncated_udp) [
  | halt r ↦ (packet, r)
  | pass u ↦
      let packet' = record packet { udp = some start } in
      elim (check_udp packet.buffer start bytes) [
        | halt r ↦ (packet', r)
        | pass v ↦
            append packet' header_udp 8 bytes Reason.too_many_headers_udp
              (layer4_end packet_end start bytes)
      ]
]

unfoldable pub parse_icmpv4 : ℕ → Packet → ℕ → ℕ → Parsed
unfolding append
parse_icmpv4 packet_end packet start bytes = elim (refuse (ltb bytes 8) Reason.truncated_icmpv4) [
  | halt r ↦ (packet, r)
  | pass u ↦
      append (record packet { icmpv4 = some start }) header_icmpv4 8 bytes
        Reason.too_many_headers_icmp (layer4_end packet_end start bytes)
]

unfoldable pub parse_icmpv6 : ℕ → Packet → ℕ → ℕ → Parsed
unfolding append
parse_icmpv6 packet_end packet start bytes = elim (refuse (ltb bytes 8) Reason.truncated_icmpv6) [
  | halt r ↦ (packet, r)
  | pass u ↦
      append (record packet { icmpv6 = some start }) header_icmpv6 8 bytes
        Reason.too_many_headers_icmp (layer4_end packet_end start bytes)
]
