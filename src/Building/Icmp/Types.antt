-- ===== src/Building/Icmp/Types.antt =====
-- The tables of ICMP types and codes in app/src/main/cpp/icmp_packet.c, and their parsing.
use Prim.Native.String.{String}
use qo_smos.Prelude.{ℕ, List, [], ◌∷◌, Option, none, some, leb, if◌then◌else◌}
use qo_smos.Prelude.Int.{ℤ, pos, negsuc}
use qo_smos.Address.{Family, af_inet, af_inet6}
use qo_smos.Building.Icmp.Names.{text_bytes, is_same_text, after_prefix, scan_int}

pub record IcmpCodeInfo : Type 0 where
  pub code_byte : ℕ
  pub code_string : List ℕ

pub record IcmpTypeInfo : Type 0 where
  pub type_byte : ℕ
  pub type_string : List ℕ
  pub code_table : List IcmpCodeInfo

unfoldable pub code_info : ℕ → String → IcmpCodeInfo
unfolding text_bytes
code_info byte name = record { code_byte = byte; code_string = text_bytes name }

unfoldable pub type_info : ℕ → String → List IcmpCodeInfo → IcmpTypeInfo
unfolding text_bytes
type_info byte name codes = record {
  type_byte = byte;
  type_string = text_bytes name;
  code_table = codes;
}

unfoldable pub icmpv4_unreachable_codes : List IcmpCodeInfo
unfolding code_info
icmpv4_unreachable_codes =
    code_info 0 "net_unreachable"
    ∷ code_info 1 "host_unreachable"
    ∷ code_info 2 "protocol_unreachable"
    ∷ code_info 3 "port_unreachable"
    ∷ code_info 4 "frag_needed"
    ∷ code_info 5 "source_route_failed"
    ∷ code_info 6 "net_unknown"
    ∷ code_info 7 "host_unknown"
    ∷ code_info 8 "source_host_isolated"
    ∷ code_info 9 "net_prohibited"
    ∷ code_info 10 "host_prohibited"
    ∷ code_info 11 "net_unreachable_for_tos"
    ∷ code_info 12 "host_unreachable_for_tos"
    ∷ code_info 13 "packet_filtered"
    ∷ code_info 14 "precedence_violation"
    ∷ code_info 15 "precedence_cutoff"
    ∷ []

unfoldable pub icmpv4_types : List IcmpTypeInfo
unfolding icmpv4_unreachable_codes type_info
icmpv4_types =
    type_info 0 "echo_reply" []
    ∷ type_info 3 "unreachable" icmpv4_unreachable_codes
    ∷ type_info 4 "source_quench" []
    ∷ type_info 5 "redirect" []
    ∷ type_info 8 "echo_request" []
    ∷ type_info 11 "time_exceeded" []
    ∷ type_info 12 "parameter_problem" []
    ∷ type_info 13 "timestamp_request" []
    ∷ type_info 14 "timestamp_reply" []
    ∷ type_info 15 "information_request" []
    ∷ type_info 16 "information_reply" []
    ∷ type_info 17 "address_mask_request" []
    ∷ type_info 18 "address_mask_reply" []
    ∷ []

unfoldable pub icmpv6_unreachable_codes : List IcmpCodeInfo
unfolding code_info
icmpv6_unreachable_codes =
    code_info 0 "net_unreachable"
    ∷ code_info 0 "no_route"
    ∷ code_info 1 "admin_prohibited"
    ∷ code_info 2 "not_neighbour"
    ∷ code_info 3 "address_unreachable"
    ∷ code_info 4 "port_unreachable"
    ∷ []

unfoldable pub icmpv6_time_exceed_codes : List IcmpCodeInfo
unfolding code_info
icmpv6_time_exceed_codes = code_info 0 "exceeded_hop_limit" ∷ code_info 1 "exceeded_frag_time" ∷ []

unfoldable pub icmpv6_paramprob_codes : List IcmpCodeInfo
unfolding code_info
icmpv6_paramprob_codes =
    code_info 0 "header_field"
    ∷ code_info 1 "unknown_next_header"
    ∷ code_info 2 "unknown_option"
    ∷ []

unfoldable pub icmpv6_types : List IcmpTypeInfo
unfolding type_info icmpv6_unreachable_codes icmpv6_time_exceed_codes icmpv6_paramprob_codes
icmpv6_types =
    type_info 1 "unreachable" icmpv6_unreachable_codes
    ∷ type_info 2 "packet_too_big" []
    ∷ type_info 3 "time_exceeded" icmpv6_time_exceed_codes
    ∷ type_info 4 "parameter_problem" icmpv6_paramprob_codes
    ∷ type_info 128 "echo_request" []
    ∷ type_info 129 "echo_reply" []
    ∷ []

unfoldable pub icmp_types : Family → List IcmpTypeInfo
unfolding icmpv4_types icmpv6_types
icmp_types af_inet = icmpv4_types
icmp_types af_inet6 = icmpv6_types

-- The last entry of a name, or what was there before.
unfoldable pub find_type :
    List ℕ → (ℤ × List IcmpCodeInfo) → List IcmpTypeInfo → ℤ × List IcmpCodeInfo
unfolding is_same_text
find_type name found [] = found
find_type name found (info ∷ infos) =
    find_type name
      (if is_same_text name info.type_string then (pos info.type_byte, info.code_table) else found)
      infos

unfoldable pub find_code : List ℕ → ℤ → List IcmpCodeInfo → ℤ
unfolding is_same_text
find_code name found [] = found
find_code name found (info ∷ infos) =
    find_code name (if is_same_text name info.code_string then pos info.code_byte else found) infos

-- `sscanf` of a prefix and a number.
unfoldable pub scan_numbered : String → List ℕ → Option ℤ
unfolding text_bytes after_prefix scan_int
scan_numbered prefix s = elim (after_prefix (text_bytes prefix) s) [
  | none ↦ none
  | some rest ↦ scan_int rest
]

-- A number that `is_valid_u8`.
unfoldable pub u8_of : ℤ → Option ℕ
u8_of (pos n) = if leb n 255 then some n else none
u8_of (negsuc n) = none

-- The type, with its codes.
unfoldable pub parse_icmp_type : Family → List ℕ → ℤ × List IcmpCodeInfo
unfolding scan_numbered find_type icmp_types
parse_icmp_type family name = elim (scan_numbered "type_" name) [
  | some number ↦ (number, [])
  | none ↦ find_type name (negsuc 0, []) (icmp_types family)
]

-- No text stands for NULL.
unfoldable pub parse_icmp_code : List IcmpCodeInfo → Option (List ℕ) → ℤ
unfolding scan_numbered find_code
parse_icmp_code codes none = pos 0
parse_icmp_code codes (some name) = elim (scan_numbered "code_" name) [
  | some number ↦ number
  | none ↦ find_code name (negsuc 0) codes
]

unfoldable pub parse_icmp_type_and_code : Family → List ℕ → Option (List ℕ) → Option (ℕ × ℕ)
unfolding parse_icmp_type parse_icmp_code u8_of
parse_icmp_type_and_code family type_string code_string =
    let found = parse_icmp_type family type_string in
    elim (u8_of found.0) [
      | none ↦ none
      | some type ↦ elim (u8_of (parse_icmp_code found.1 code_string)) [
        | none ↦ none
        | some code ↦ some (type, code)
      ]
    ]
