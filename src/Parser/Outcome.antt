-- ===== src/Parser/Outcome.antt =====
-- What a call of the parser can come to, and the reads and checks that may end it.
use qo_smos.Prelude.{ℕ, ◌+◌, ◌*◌, ◌^◌, Bool, true, false, List, none, some, get_elem?}
use qo_smos.Packet.{Packet}

-- The messages of PACKET_BAD.
pub data Reason : Type 0 where
  ethernet_header_overflows ipv4_header_overflows ipv6_header_overflows : Reason
  ip_header_overflows bad_version_for_ip bad_version_for_ipv6 unsupported_ip_version : Reason
  ip_header_too_short full_ip_header_overflows ip_payload_overflows : Reason
  ip_header_bigger_than_datagram more_fragments nonzero_fragment_offset bad_ip_checksum : Reason
  ipv6_payload_overflows truncated_tcp tcp_offset_too_small tcp_offset_too_big : Reason
  truncated_udp udp_too_small_for_header udp_too_small udp_too_big : Reason
  truncated_icmpv4 truncated_icmpv6 truncated_gre gre_version gre_routing : Reason
  gre_too_small gre_too_big mpls_entry_overflows : Reason
  too_many_headers_ipv4 too_many_headers_ipv6 too_many_headers_tcp too_many_headers_udp : Reason
  too_many_headers_icmp too_many_headers_gre too_many_headers_mpls : Reason

-- `enum packet_parse_result_t`, and the ends that C does not return from: a read outside the buffer,
-- a failed assert, and the model's end of fuel.
pub data Result : Type 0 where
  packet_ok packet_unknown_l4 : Result
  packet_bad : Reason → Result
  overread assert_failed out_of_fuel : Result

abbrev pub Parsed : Type 0
Parsed = Packet × Result

pub data Checked (A : Type 0) : Type 0 where
  pass : A → Checked A
  halt : Result → Checked A

infixl 5 ◌>>=◌ ◌>>◌
unfoldable pub ◌>>=◌ : {A B : Type 0} → Checked A → (A → Checked B) → Checked B
pass a >>= f = f a
halt r >>= f = halt r

abbrev pub ◌>>◌ : {B : Type 0} → Checked (Unit {0}) → Checked B → Checked B
m >> k = m >>= λ _. k

-- `if (wrong) { … goto error_out; }`
unfoldable pub refuse : Bool → Reason → Checked (Unit {0})
refuse true e = halt (packet_bad e)
refuse false e = pass tt

unfoldable pub assert : Bool → Checked (Unit {0})
assert true = pass tt
assert false = halt assert_failed

-- A byte, and a big-endian field as `ntohs` gives it.
unfoldable pub read8 : List ℕ → ℕ → Checked ℕ
read8 buffer i = elim (get_elem? buffer i) [ none ↦ halt overread | some b ↦ pass b ]

unfoldable pub read16 : List ℕ → ℕ → Checked ℕ
unfolding read8 ◌>>=◌
read16 buffer i = do hi ← read8 buffer i; lo ← read8 buffer (i + 1); pass (hi * 2 ^ 8 + lo)
