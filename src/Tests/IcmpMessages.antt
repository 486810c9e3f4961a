-- ===== src/Tests/IcmpMessages.antt =====
-- ICMP types and codes by name and by number, and the headers with an MTU.
use qo_smos.Prelude.{true, inl, arith, ◌≡◌, refl, [], ◌∷◌, none, some}
use qo_smos.Building.{IpInfo}
use qo_smos.Packet.{Packet, packet_new}
use qo_smos.Building.Header.{live_tuple_of}
use qo_smos.Building.Icmp.Message.{injected_icmp}
use qo_smos.Building.Icmp.Injected.{IsFaithful, icmp_report_injected}
use qo_smos.Building.Icmp.Echoed.{set_packet_tuple}
use qo_smos.Prelude.Int.{pos, negsuc}
use qo_smos.Address.{af_inet, af_inet6}
use qo_smos.Building.Icmp.Names.{text_bytes}
use qo_smos.Building.Icmp.Types.{parse_icmp_type_and_code}
use qo_smos.Building.Icmp.{set_icmpv4_header, set_icmpv6_header, new_icmp_packet}

by_name :
    (parse_icmp_type_and_code af_inet (text_bytes "unreachable") (some (text_bytes "frag_needed"))
      ≡ some (3, 4))
    × (parse_icmp_type_and_code af_inet6
          (text_bytes "time_exceeded")
          (some (text_bytes "exceeded_frag_time"))
        ≡ some (3, 1))
    × (parse_icmp_type_and_code af_inet (text_bytes "echo_request") none ≡ some (8, 0))
unfolding text_bytes parse_icmp_type_and_code
by_name = (refl, refl, refl)

-- A number has no table, so the name of a code does not go with it.
by_number :
    (parse_icmp_type_and_code af_inet (text_bytes "type_3") (some (text_bytes "code_4"))
      ≡ some (3, 4))
    × (parse_icmp_type_and_code af_inet (text_bytes "type_3") (some (text_bytes "frag_needed"))
        ≡ none)
    × (parse_icmp_type_and_code af_inet (text_bytes "type_256") none ≡ none)
    × (parse_icmp_type_and_code af_inet (text_bytes "type_-1") none ≡ none)
unfolding text_bytes parse_icmp_type_and_code
by_number = (refl, refl, refl, refl)

mtus :
    (set_icmpv4_header 3 4 (pos 1500) 0 ≡ some (3 ∷ 4 ∷ 0 ∷ 0 ∷ 0 ∷ 0 ∷ 5 ∷ 220 ∷ []))
    × (set_icmpv4_header 3 1 (pos 1500) 0 ≡ none)
    × (set_icmpv6_header 2 0 (pos 4294967296) 0 ≡ none)
unfolding set_icmpv4_header set_icmpv6_header
mtus = (refl, refl, refl)

-- A raw payload that has no room for the header, and an id that is not one.
refused :
    (new_icmp_packet af_inet
        (text_bytes "echo_request")
        none
        255
        0
        7
        (record { tos = 0; flow_label = 0; ttl = 0 })
        (negsuc 0)
        (pos 1)
      ≡ none)
    × (new_icmp_packet af_inet
          (text_bytes "echo_request")
          none
          255
          0
          8
          (record { tos = 0; flow_label = 0; ttl = 0 })
          (negsuc 0)
          (pos 65536)
        ≡ none)
unfolding text_bytes new_icmp_packet
refused = (refl, refl)

abbrev plain : IpInfo
plain = record { tos = 0; flow_label = 0; ttl = 64 }

-- A report on a TCP segment with the MTU of the path.
abbrev report : Packet
report =
    elim (new_icmp_packet af_inet (text_bytes "unreachable") (some (text_bytes "frag_needed")) 6 1
      1000 plain (pos 1500) (pos 0)) [ some t ↦ t | none ↦ packet_new [] ]

report-eq :
    new_icmp_packet af_inet
      (text_bytes "unreachable")
      (some (text_bytes "frag_needed"))
      6
      1
      1000
      plain
      (pos 1500)
      (pos 0)
    ≡ some report
unfolding text_bytes new_icmp_packet
report-eq = refl

icmp_report_injected_example :
    (p : Packet) × (injected_icmp true 100 report
        (live_tuple_of 8080 53 (192, 0, 2, 1) (192, 168, 0, 1))
      ≡ some p)
    × IsFaithful
        (text_bytes "unreachable")
        (some (text_bytes "frag_needed"))
        6
        1
        1000
        plain
        (pos 1500)
        (pos 0)
        100
        8080
        53
        (192, 0, 2, 1)
        (192, 168, 0, 1)
        p
icmp_report_injected_example =
    icmp_report_injected (text_bytes "unreachable") (some (text_bytes "frag_needed")) 6 1 1000 plain
      (pos 1500) (pos 0) 100 8080 53 (192, 0, 2, 1) (192, 168, 0, 1) report (inl refl) report-eq
      (omega arith) (omega arith) (omega arith) (omega arith, omega arith, omega arith, omega arith)
      (omega arith, omega arith, omega arith, omega arith)

-- A raw payload with no room for a header behind the ICMP one: the tuple would be written behind the buffer.
abbrev raw : Packet
raw =
    elim (new_icmp_packet af_inet (text_bytes "echo_request") none 255 0 8 plain (negsuc 0)
      (pos 1)) [ some t ↦ t | none ↦ packet_new [] ]

behind_buffer : set_packet_tuple raw (live_tuple_of 8080 53 (192, 0, 2, 1) (192, 168, 0, 1)) ≡ none
unfolding text_bytes new_icmp_packet set_packet_tuple
behind_buffer = refl
