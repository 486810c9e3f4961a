-- ===== src/Parser/Tunnel.antt =====
-- IPv4 in IPv4, which `parse_layer4` hands to `parse_ipv4` with no test that a byte is there.
use qo_smos.Prelude.{
  ℕ, ◌+◌, ◌≡◌, refl, List, [], ◌∷◌, none, some, arith, length, get_elem?, leb, true,
}
use qo_smos.Packet.{Packet, packet_new, packet_append_header, set_total_bytes, header_ipv4}
use qo_smos.Parser.Outcome.{overread, pass, halt, read8, Reason, ◌>>=◌}
use qo_smos.Parser.Checks.{Extent, check_ipv4, check_layer3}
use qo_smos.Parser.Layer4.{append}
use qo_smos.Parser.{
  Inner, parse, parse_entry, parse_ipv4, parse_layer3_packet, parse_layer4, parse_packet,
  finish_ipv4, packet_layer_3_ip,
}

get_elem?-length : (xs : List ℕ) → get_elem? xs (length xs) ≡ none
get_elem?-length [] = refl
get_elem?-length (x ∷ xs) = get_elem?-length xs

read8-end : (buffer : List ℕ) → read8 buffer (length buffer) ≡ halt overread
unfolding read8
read8-end buffer = rw (get_elem?-length buffer, read8) refl

check_ipv4-end :
    (buffer : List ℕ) → check_ipv4 buffer (length buffer) (length buffer) ≡ halt overread
unfolding ◌>>=◌ check_ipv4
check_ipv4-end buffer = rw (read8-end buffer, check_ipv4) refl

parse_ipv4-end :
    (inner : Inner) (packet : Packet)
    → (parse_ipv4 inner (length packet.buffer) packet (length packet.buffer)).1 ≡ overread
unfolding parse_ipv4
parse_ipv4-end inner packet = rw (check_ipv4-end packet.buffer, parse_ipv4) refl

-- The packet whose only header is the outer one.
abbrev outer : List ℕ → Packet
outer buffer = record (packet_new buffer) {
  headers =
      record { type = header_ipv4; header_bytes = length buffer; total_bytes = 0; ptr = 0 } ∷ [];
  ip_bytes = length buffer;
}

append-outer :
    (buffer : List ℕ)
    → packet_append_header (packet_new buffer) header_ipv4 (length buffer) ≡ some (outer buffer)
unfolding packet_append_header packet_new
append-outer buffer = ground arith

module _ (buffer : List ℕ) (x : Extent) where
  -- An IPv4 packet that passes every check, fills its buffer with its header, and carries protocol 4
  -- makes `parse_packet` read the byte behind the buffer.
  pub parse_packet-overread :
      (check_layer3 buffer 0 (length buffer) 20 Reason.ip_header_overflows ≡ pass 4)
      → check_ipv4 buffer 0 (length buffer) ≡ pass x
      → x.protocol ≡ 4
      → x.header ≡ length buffer
      → (parse_packet (packet_new buffer) (length buffer) packet_layer_3_ip).1 ≡ overread
  unfolding parse_packet packet_new parse parse_entry parse_layer3_packet parse_ipv4 append
      parse_layer4 finish_ipv4 set_total_bytes
  parse_packet-overread version checks tunnel full =
      let at : 0 + x.header ≡ length buffer = omega (arith, full) in
      let fits : leb (length buffer) (length buffer) ≡ true = ground arith in
      rw
        (
          fits,
          version,
          parse_layer3_packet,
          checks,
          parse_ipv4,
          full,
          append-outer buffer,
          append,
          tunnel,
        )
        (rw at (parse_ipv4-end (λ entry packet p. parse 5 (length buffer) entry packet p) _))
