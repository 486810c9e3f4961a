-- ===== src/Building/Icmp/Built.antt =====
-- What a packet of the ICMP builder over IPv4 is made of.
use qo_smos.Prelude.{
  ℕ, ◌+◌, ◌-◌, ◌/◌, ◌%◌, ◌^◌, ◌<◌, ◌≡◌, List, [], ◌∷◌, Option, some, length, length-replicate,
  arith, false, inl, inr, Option-cases, Bool-cases,
}
use qo_smos.Prelude.Int.{ℤ, pos, negsuc}
use qo_smos.Building.Header.{zeros-IsBytes}
use qo_smos.Checksum.Sum.{IsBytes}
use qo_smos.Address.{af_inet, Family}
use qo_smos.Packet.{Packet}
use qo_smos.Building.{IpInfo, ip_header_min_len, ip_header, set_ipv4_header}
use qo_smos.Building.Icmp.Types.{u8_of, parse_icmp_type_and_code, parse_icmp_type, parse_icmp_code}
use qo_smos.Building.Icmp.{
  set_icmpv4_header, set_icmp_header, echoed, icmp_size, echo_id_of, is_short, assembled_icmp,
  new_icmp_packet,
}

u8_of-bound : (z : ℤ) (n : ℕ) → u8_of z ≡ some n → n < 256
unfolding u8_of
u8_of-bound (pos m) n e = ground (arith, e)
u8_of-bound (negsuc m) n e = ground (arith, e)

parse_icmp_type_and_code-bounds :
    (family : Family) (s : List ℕ) (t : Option (List ℕ)) (type code : ℕ)
    → parse_icmp_type_and_code family s t ≡ some (type, code)
    → (type < 256) × (code < 256)
unfolding parse_icmp_type_and_code
parse_icmp_type_and_code-bounds family s t type code e =
    let a = u8_of (parse_icmp_type family s).0 in
    let b = u8_of (parse_icmp_code (parse_icmp_type family s).1 t) in
    elim (Option-cases a) [
      | inl no_type ↦ absurd (ground (arith, e, no_type))
      | inr (n, type_eq) ↦ elim (Option-cases b) [
        | inl no_code ↦ absurd (ground (arith, e, type_eq, no_code))
        | inr (m, code_eq) ↦
            let type_bound = u8_of-bound (parse_icmp_type family s).0 n type_eq in
            let code_bound =
              u8_of-bound (parse_icmp_code (parse_icmp_type family s).1 t) m code_eq in
            (
              ground (arith, e, type_eq, code_eq, type_bound),
              ground (arith, e, type_eq, code_eq, code_bound),
            )
      ]
    ]

-- The 4 bytes behind the checksum: the echo id and the MTU.
abbrev pub message_of : ℕ → ℕ → ℕ × ℕ × ℕ × ℕ
message_of id mtu = (id / 2 ^ 8 % 2 ^ 8, id % 2 ^ 8, mtu / 2 ^ 8 % 2 ^ 8, mtu % 2 ^ 8)

abbrev pub mtu_or_zero : ℤ → ℕ
mtu_or_zero (pos m) = m
mtu_or_zero (negsuc m) = 0

abbrev pub header_bytes : ℕ → ℕ → ℕ × ℕ × ℕ × ℕ → List ℕ
header_bytes type code (a, b, c, d) = type ∷ code ∷ 0 ∷ 0 ∷ a ∷ b ∷ c ∷ d ∷ []

set_icmpv4_header-bytes :
    (type code : ℕ) (mtu : ℤ) (id : ℕ) (header : List ℕ)
    → set_icmpv4_header type code mtu id ≡ some header
    → header ≡ header_bytes type code (message_of id (mtu_or_zero mtu))
unfolding set_icmpv4_header
set_icmpv4_header-bytes type code (pos m) id header e = ground (arith, e)
set_icmpv4_header-bytes type code (negsuc m) id header e = ground (arith, e)

echoed-size :
    (protocol seq payload : ℕ) (behind : List ℕ)
    → is_short (icmp_size af_inet protocol payload) ≡ false
    → echoed af_inet protocol seq payload ≡ some behind
    → icmp_size af_inet protocol payload ≡ 8 + length behind
unfolding icmp_size echoed ip_header set_ipv4_header ip_header_min_len
echoed-size protocol seq payload behind short e =
    ground (arith, short, e, length-replicate {A = ℕ} (payload - 8) 0)

echoed-IsBytes :
    (protocol seq payload : ℕ) (behind : List ℕ)
    → echoed af_inet protocol seq payload ≡ some behind
    → IsBytes behind
unfolding echoed ip_header set_ipv4_header ip_header_min_len
echoed-IsBytes protocol seq payload behind e = ground (arith, e, zeros-IsBytes (payload - 8))

module _ (type_string : List ℕ) (code_string : Option (List ℕ)) (protocol seq payload : ℕ)
    (info : IpInfo) (mtu echo_id : ℤ) (t : Packet) where
  -- What a built packet is made of.
  pub record IsMadeOf : Type 0 where
    pub type : ℕ
    pub code : ℕ
    pub id : ℕ
    pub behind : List ℕ
    pub parsed : parse_icmp_type_and_code af_inet type_string code_string ≡ some (type, code)
    pub id_found : echo_id_of echo_id ≡ some id
    pub behind_found : echoed af_inet protocol seq payload ≡ some behind
    pub type_byte : type < 256
    pub code_byte : code < 256
    pub behind_bytes : IsBytes behind
    pub assembled :
        assembled_icmp af_inet info
          (8 + length behind)
          (header_bytes type code (message_of id (mtu_or_zero mtu)))
          behind
        ≡ some t

  -- The packet that the parts make, if they are what the builder found.
  made_of :
      (id type code : ℕ) (header behind : List ℕ)
      → echo_id_of echo_id ≡ some id
      → is_short (icmp_size af_inet protocol payload) ≡ false
      → parse_icmp_type_and_code af_inet type_string code_string ≡ some (type, code)
      → set_icmpv4_header type code mtu id ≡ some header
      → echoed af_inet protocol seq payload ≡ some behind
      → assembled_icmp af_inet info (icmp_size af_inet protocol payload) header behind ≡ some t
      → IsMadeOf
  made_of id type code header behind id_eq short parsed set echo made =
      let bounds =
        parse_icmp_type_and_code-bounds af_inet type_string code_string type code parsed in
      let header_eq = set_icmpv4_header-bytes type code mtu id header set in
      let size = echoed-size protocol seq payload behind short echo in
      record {
        type = type;
        code = code;
        id = id;
        behind = behind;
        parsed = parsed;
        id_found = id_eq;
        behind_found = echo;
        type_byte = bounds.0;
        code_byte = bounds.1;
        behind_bytes = echoed-IsBytes protocol seq payload behind echo;
        assembled = rw (← size, ← header_eq) made;
      }

  pub new_icmp_packet-IsMadeOf :
      new_icmp_packet af_inet type_string code_string protocol seq payload info mtu echo_id ≡ some t
      → IsMadeOf
  unfolding new_icmp_packet set_icmp_header
  new_icmp_packet-IsMadeOf e =
      let parse = parse_icmp_type_and_code af_inet type_string code_string in
      elim (Option-cases (echo_id_of echo_id)) [
        | inl no_id ↦ absurd (ground (arith, e, no_id))
        | inr (id, id_eq) ↦ elim (Bool-cases (is_short (icmp_size af_inet protocol payload))) [
          | inl short ↦ absurd (ground (arith, e, id_eq, short))
          | inr long ↦ elim (Option-cases parse) [
            | inl no_parse ↦ absurd (ground (arith, e, id_eq, long, no_parse))
            | inr ((type, code), parsed) ↦
                elim (Option-cases (set_icmpv4_header type code mtu id)) [
                  | inl no_header ↦ absurd (ground (arith, e, id_eq, long, parsed, no_header))
                  | inr (header, header_eq) ↦
                      elim (Option-cases (echoed af_inet protocol seq payload)) [
                        | inl no_echo ↦
                            absurd (ground (arith, e, id_eq, long, parsed, header_eq, no_echo))
                        | inr (behind, echo_eq) ↦
                            made_of id type code header behind id_eq long parsed header_eq echo_eq
                              (ground (arith, e, id_eq, long, parsed, header_eq, echo_eq))
                      ]
                ]
          ]
        ]
      ]
