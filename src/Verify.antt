-- ===== src/Verify.antt =====
-- The comparison of a sniffed packet with the script's, in app/src/main/cpp/run_packet.c. A header is
-- the record of the fields that are compared, in host order; bit fields of one bit are 0 or 1.
pub mod Fields
pub mod Exact
pub mod Same
pub mod Flowlabel
pub mod TcpOptions
pub mod Live
use qo_smos.Prelude.{
  ℕ, zero, suc, ◌+◌, ◌-◌, ◌*◌, ◌/◌, ◌%◌, ◌^◌, Bool, true, false, ◌||◌, ◌&&◌, not, List, [], ◌∷◌,
  Option, none, some, ltb, leb, ◌==◌, if◌then◌else◌, length, get_or,
}
use qo_smos.Prelude.Words.{add32}
use qo_smos.Verify.Fields.{
  Verdict, status_ok, status_err, aborted, TosCheck, tos_check_none, tos_check_ecn, tos_check_tos,
  Difference, header_count, header_layer, ipv4_version, ipv4_protocol, ipv4_header_length,
  ipv4_total_length, ip_ecn, tos, ttl, ipv6_version, ipv6_payload_len, ipv6_next_header,
  tcp_data_offset, tcp_fin, tcp_syn, tcp_rst, tcp_psh, tcp_ack, tcp_urg, tcp_ece, tcp_cwr,
  tcp_reserved_bits, tcp_seq, tcp_ack_seq, tcp_window, tcp_urg_ptr, udp_len, gre_length, gre_flags,
  gre_proto, gre_sum, gre_off, gre_key, gre_seq, mpls_depth, mpls_label, icmp_type, icmp_code,
  flowlabel_unmarked, flowlabel_same, flowlabel_inconsistent, fragment_payload, status_err, Ipv4,
  Ipv6, Tcp, Gre, Icmp, Layer, ipv4, ipv6, gre, mpls, tcp, udp, icmpv4, icmpv6, Compared,
}
use qo_smos.Parser.Checks.{gre_len, is_gre_supported}

-- `||` on status codes: the first error, or the end of the program.
infixr 3 ◌also◌
unfoldable pub ◌also◌ : Verdict → Verdict → Verdict
status_ok also v = v
status_err d also v = status_err d
aborted also v = aborted

abbrev pub assert_that : Bool → Verdict
assert_that b = if b then status_ok else aborted

-- `condition && check`
unfoldable pub only_if : Bool → Verdict → Verdict
only_if true v = v
only_if false v = status_ok

unfoldable pub check_field : Difference → ℕ → ℕ → Verdict
check_field name expected actual = if actual == expected then status_ok else status_err name

-- ECN_ECT01 of `enum ip_ecn_t`
abbrev pub ecn_ect01 : ℕ
ecn_ect01 = 4

abbrev pub ttl_check_none : ℕ
ttl_check_none = 255

unfoldable pub verify_outbound_live_tos : TosCheck → ℕ → ℕ → Verdict
unfolding check_field
verify_outbound_live_tos tos_check_none actual script = status_ok
verify_outbound_live_tos tos_check_ecn actual script =
    if script == ecn_ect01
    then if not (actual % 4 == 2) && not (actual % 4 == 1) then status_err ip_ecn else status_ok
    else check_field ip_ecn script (actual % 4)
verify_outbound_live_tos tos_check_tos actual script = check_field tos script actual

unfoldable pub verify_outbound_live_ttl_or_hl : ℕ → ℕ → Verdict
unfolding check_field
verify_outbound_live_ttl_or_hl actual script =
    if not (script == ttl_check_none) then check_field ttl script actual else status_ok

unfoldable pub tcp_options_allowance : Compared → Compared → ℕ
tcp_options_allowance actual script = if script.options_nocheck then actual.tcp_options_len else 0

unfoldable pub verify_ipv4 : Compared → Compared → Bool → Ipv4 → Ipv4 → Verdict
unfolding tcp_options_allowance
verify_ipv4 actual_packet script_packet strict actual script =
    check_field ipv4_version script.version actual.version
    also check_field ipv4_protocol script.protocol actual.protocol
    also check_field ipv4_header_length script.ihl actual.ihl
    also only_if strict (
        check_field ipv4_total_length
          (script.tot_len + tcp_options_allowance actual_packet script_packet) actual.tot_len)
    also verify_outbound_live_tos script_packet.tos_chk actual.tos_byte script.tos_byte
    also verify_outbound_live_ttl_or_hl actual.ttl_byte script.ttl_byte

unfoldable pub verify_ipv6 : Compared → Compared → Bool → Ipv6 → Ipv6 → Verdict
unfolding tcp_options_allowance
verify_ipv6 actual_packet script_packet strict actual script =
    check_field ipv6_version script.version actual.version
    also only_if strict (
        check_field ipv6_payload_len
          (script.payload_len + tcp_options_allowance actual_packet script_packet)
          actual.payload_len)
    also check_field ipv6_next_header script.next_header actual.next_header
    also verify_outbound_live_tos script_packet.tos_chk actual.tos_byte script.tos_byte
    also verify_outbound_live_ttl_or_hl actual.hop_limit script.hop_limit

unfoldable pub verify_tcp : Compared → Compared → Bool → Tcp → Tcp → Verdict
unfolding tcp_options_allowance
verify_tcp actual_packet script_packet strict actual script =
    check_field tcp_data_offset
      (script.doff + tcp_options_allowance actual_packet script_packet / 4) actual.doff
    also only_if strict (check_field tcp_fin script.fin actual.fin)
    also check_field tcp_syn script.syn actual.syn
    also check_field tcp_rst script.rst actual.rst
    also only_if strict (check_field tcp_psh script.psh actual.psh)
    also check_field tcp_ack script.ack actual.ack
    also check_field tcp_urg script.urg actual.urg
    also check_field tcp_ece script.ece actual.ece
    also only_if strict (check_field tcp_cwr script.cwr actual.cwr)
    also check_field tcp_reserved_bits script.res1 actual.res1
    also only_if strict (check_field tcp_seq script.seq actual.seq)
    also only_if (not strict)
        (check_field tcp_seq (add32 script.seq script_packet.payload_len) actual.seq)
    also check_field tcp_ack_seq script.ack_seq actual.ack_seq
    also only_if (not script_packet.win_nocheck)
        (check_field tcp_window script.window actual.window)
    also check_field tcp_urg_ptr script.urg_ptr actual.urg_ptr

unfoldable pub verify_udp : Bool → ℕ → ℕ → Verdict
verify_udp strict actual script = only_if strict (check_field udp_len script actual)

-- The flag bits of `struct gre`, and the word that a test on them counts.
abbrev pub has_checksum : ℕ → Bool
has_checksum flags = flags / 2 ^ 15 % 2 == 1

abbrev pub has_routing : ℕ → Bool
has_routing flags = flags / 2 ^ 14 % 2 == 1

abbrev pub has_key : ℕ → Bool
has_key flags = flags / 2 ^ 13 % 2 == 1

abbrev pub has_seq : ℕ → Bool
has_seq flags = flags / 2 ^ 12 % 2 == 1

abbrev pub word : Bool → ℕ
word b = if b then 1 else 0

-- `be16[0]` and `be16[1]` are the halves of the first word.
unfoldable pub verify_gre : Gre → Gre → Verdict
unfolding gre_len
verify_gre actual script =
    let first = has_checksum script.flags || has_routing script.flags in
    let i = word first in
    let j = i + word (has_key script.flags) in
    assert_that (is_gre_supported script.flags && is_gre_supported actual.flags)
    also check_field gre_length (gre_len script.flags) (gre_len actual.flags)
    also check_field gre_flags script.flags actual.flags
    also check_field gre_proto script.proto actual.proto
    also only_if first (
        check_field gre_sum (get_or script.be32 0 0 / 2 ^ 16) (get_or actual.be32 0 0 / 2 ^ 16)
        also check_field gre_off (get_or script.be32 0 0 % 2 ^ 16)
            (get_or actual.be32 0 0 % 2 ^ 16))
    also only_if (has_key script.flags)
        (check_field gre_key (get_or script.be32 i 0) (get_or actual.be32 i 0))
    also only_if (has_seq script.flags)
        (check_field gre_seq (get_or script.be32 j 0) (get_or actual.be32 j 0))

-- The loop over the script's entries.
unfoldable pub verify_entries : List ℕ → List ℕ → Verdict
verify_entries actual [] = status_ok
verify_entries [] (s ∷ script) = status_err mpls_label
verify_entries (a ∷ actual) (s ∷ script) =
    check_field mpls_label s a also verify_entries actual script

unfoldable pub verify_mpls : List ℕ → List ℕ → Verdict
unfolding verify_entries
verify_mpls actual script =
    check_field mpls_depth (length script * 4) (length actual * 4) also verify_entries actual script

unfoldable pub verify_icmp : Icmp → Icmp → Verdict
verify_icmp actual script =
    check_field icmp_type script.type actual.type also check_field icmp_code script.code actual.code

unfoldable pub verify_header : Compared → Compared → Bool → Layer → Layer → Verdict
unfolding verify_ipv4 verify_ipv6 verify_tcp verify_udp verify_gre verify_mpls verify_icmp
verify_header a s strict (ipv4 x) (ipv4 y) = verify_ipv4 a s strict x y
verify_header a s strict (ipv6 x) (ipv6 y) = verify_ipv6 a s strict x y
verify_header a s strict (gre x) (gre y) = verify_gre x y
verify_header a s strict (mpls x) (mpls y) = verify_mpls x y
verify_header a s strict (tcp x) (tcp y) = verify_tcp a s strict x y
verify_header a s strict (udp x) (udp y) = verify_udp strict x y
verify_header a s strict (icmpv4 x) (icmpv4 y) = verify_icmp x y
verify_header a s strict (icmpv6 x) (icmpv6 y) = verify_icmp x y
verify_header a s strict x y = status_err header_layer

-- The loop over the script's headers, of which the sniffed packet has as many.
unfoldable pub verify_layers : Compared → Compared → Bool → List Layer → List Layer → Verdict
unfolding verify_header
verify_layers a s strict actual [] = status_ok
verify_layers a s strict [] (y ∷ script) = status_err header_layer
verify_layers a s strict (x ∷ actual) (y ∷ script) =
    verify_header a s strict x y also verify_layers a s strict actual script

abbrev pub is_ip : Layer → Bool
is_ip (ipv4 x) = true
is_ip (ipv6 x) = true
is_ip _ = false

abbrev pub is_above_ip : Layer → Bool
is_above_ip (tcp x) = true
is_above_ip (udp x) = true
is_above_ip (icmpv4 x) = true
is_above_ip (icmpv6 x) = true
is_above_ip _ = false

abbrev pub has_layer : (Layer → Bool) → List Layer → Bool
has_layer is [] = false
has_layer is (x ∷ xs) = is x || has_layer is xs

-- A packet has the pointer to a header exactly if it has the header.
unfoldable pub verify_outbound_live_headers : Compared → Compared → Bool → Verdict
unfolding verify_layers
verify_outbound_live_headers actual script strict =
    assert_that (has_layer is_ip actual.headers)
    also assert_that (has_layer is_above_ip actual.headers)
    also check_field header_count (length script.headers) (length actual.headers)
    also verify_layers actual script strict actual.headers script.headers
