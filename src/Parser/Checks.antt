-- ===== src/Parser/Checks.antt =====
-- The tests that each header must pass before it is recorded; they change nothing.
use qo_smos.Prelude.{
  Bool, ℕ, zero, suc, ◌+◌, ◌-◌, ◌*◌, ◌/◌, ◌%◌, ◌^◌, not, ◌&&◌, List, ltb, leb, ◌==◌, if◌then◌else◌,
  take, drop, length,
}
use qo_smos.Checksum.{ipv4_checksum}
use qo_smos.Parser.Outcome.{
  overread, out_of_fuel, Checked, pass, halt, Reason, ◌>>=◌, ◌>>◌, refuse, assert, read8, read16,
}

-- What an IP header says of its datagram, in bytes.
pub record Extent : Type 0 where
  pub header : ℕ
  pub total : ℕ
  pub protocol : ℕ

-- The `n` bytes at an offset, read as a whole.
unfoldable pub read_bytes : List ℕ → ℕ → ℕ → Checked (List ℕ)
read_bytes buffer p n =
    if leb (p + n) (length buffer) then pass (take n (drop p buffer)) else halt overread

-- The assert on the offset behind the header, which C has after recording it, is tested here.
unfoldable pub check_ipv4 : List ℕ → ℕ → ℕ → Checked Extent
check_ipv4 buffer p packet_end = do
  first ← read8 buffer p
  let header = first % 16 * 4
  refuse (ltb header 20) Reason.ip_header_too_short
  refuse (ltb packet_end (p + header)) Reason.full_ip_header_overflows
  total ← read16 buffer (p + 2)
  refuse (ltb packet_end (p + total)) Reason.ip_payload_overflows
  refuse (ltb total header) Reason.ip_header_bigger_than_datagram
  frag_off ← read16 buffer (p + 6)
  refuse (frag_off / 2 ^ 13 % 2 == 1) Reason.more_fragments
  refuse (not (frag_off % 2 ^ 13 == 0)) Reason.nonzero_fragment_offset
  bytes ← read_bytes buffer p header
  refuse (not (ipv4_checksum bytes == 0)) Reason.bad_ip_checksum
  assert (leb (p + header) packet_end)
  protocol ← read8 buffer (p + 9)
  pass (record { header = header; total = total; protocol = protocol })

unfoldable pub check_ipv6 : List ℕ → ℕ → ℕ → Checked Extent
check_ipv6 buffer p packet_end = do
  refuse (ltb packet_end (p + 40)) Reason.ipv6_header_overflows
  payload_len ← read16 buffer (p + 4)
  let total = 40 + payload_len
  refuse (ltb packet_end (p + total)) Reason.ipv6_payload_overflows
  assert (leb 40 total)
  assert (leb (p + 40) packet_end)
  protocol ← read8 buffer (p + 6)
  pass (record { header = 40; total = total; protocol = protocol })

-- The version in the first four bits, behind the test that `n` bytes of header are there.
unfoldable pub check_layer3 : List ℕ → ℕ → ℕ → ℕ → Reason → Checked ℕ
check_layer3 buffer p packet_end n overflows = do
  refuse (ltb packet_end (p + n)) overflows
  first ← read8 buffer p
  pass (first / 16)

-- `gre_len`; its asserts were tested just before.
unfoldable pub gre_len : ℕ → ℕ
gre_len flags =
    4
    + (if flags / 2 ^ 15 % 2 == 1 then 4 else 0)
    + (if flags / 2 ^ 13 % 2 == 1 then 4 else 0)
    + (if flags / 2 ^ 12 % 2 == 1 then 4 else 0)

-- The asserts of `gre_len`: version 0, and no routing.
abbrev pub is_gre_supported : ℕ → Bool
is_gre_supported flags = (flags % 8 == 0) && not (flags / 2 ^ 14 % 2 == 1)

-- The length of the GRE header and the protocol inside.
unfoldable pub check_gre : List ℕ → ℕ → ℕ → ℕ → Checked (ℕ × ℕ)
unfolding gre_len
check_gre buffer p layer4_bytes packet_end = do
  refuse (ltb layer4_bytes 4) Reason.truncated_gre
  flags ← read16 buffer p
  refuse (not (flags % 8 == 0)) Reason.gre_version
  refuse (flags / 2 ^ 14 % 2 == 1) Reason.gre_routing
  refuse (ltb (gre_len flags) 4) Reason.gre_too_small
  refuse (ltb layer4_bytes (gre_len flags)) Reason.gre_too_big
  assert (leb (p + layer4_bytes) packet_end)
  assert (leb (p + gre_len flags) packet_end)
  proto ← read16 buffer (p + 2)
  pass (gre_len flags, proto)

-- The label stack up to its bottom entry or the end of the packet: the offset behind it.
unfoldable pub mpls_stack : List ℕ → ℕ → ℕ → ℕ → Checked ℕ
mpls_stack buffer packet_end zero p = halt out_of_fuel
mpls_stack buffer packet_end (suc fuel) p =
    let rest = mpls_stack buffer packet_end fuel (p + 4) in
    do
      refuse (ltb packet_end (p + 4)) Reason.mpls_entry_overflows
      third ← read8 buffer (p + 2)
      if not (third % 2 == 1) && ltb (p + 4) packet_end then rest else pass (p + 4)

-- The offset behind the label stack. As in `check_ipv4`, the asserts that stand in the C function
-- behind the recording of the header are tested here.
unfoldable pub check_mpls : List ℕ → ℕ → ℕ → Checked ℕ
unfolding mpls_stack
check_mpls buffer p packet_end = do
  after ← mpls_stack buffer packet_end (suc packet_end) p
  assert (leb (after - p) (packet_end - p))
  assert (leb after packet_end)
  pass after
