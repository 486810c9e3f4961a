-- ===== src/Tests/Tunnels.antt =====
-- Runs of the encapsulation of packets.
use qo_smos.Prelude.{◌++◌, ℕ, ◌≡◌, refl, List, [], ◌∷◌, Option, none, some, map, replicate}
use qo_smos.Packet.{Packet, header_ipv4, header_gre, header_udp}
use qo_smos.Packet.Copy.{packet_encapsulate}

abbrev outer : Packet
outer = record {
  buffer = 69 ∷ replicate 23 0;
  buffer_bytes = 24;
  l2_header_bytes = 0;
  ip_bytes = 24;
  headers =
      record { type = header_ipv4; header_bytes = 20; total_bytes = 0; ptr = 0 }
      ∷ record { type = header_gre; header_bytes = 4; total_bytes = 0; ptr = 20 }
      ∷ [];
  ipv4 = some 0;
  ipv6 = none;
  tcp = none;
  udp = none;
  icmpv4 = none;
  icmpv6 = none;
}

-- UDP with two bytes of payload
abbrev inner : Packet
inner = record {
  buffer = 69 ∷ replicate 29 0;
  buffer_bytes = 30;
  l2_header_bytes = 0;
  ip_bytes = 30;
  headers =
      record { type = header_ipv4; header_bytes = 20; total_bytes = 30; ptr = 0 }
      ∷ record { type = header_udp; header_bytes = 8; total_bytes = 10; ptr = 20 }
      ∷ [];
  ipv4 = some 0;
  ipv6 = none;
  tcp = none;
  udp = some 20;
  icmpv4 = none;
  icmpv6 = none;
}

abbrev totals : Option Packet → List ℕ
totals none = []
totals (some p) = map (λ h. h.total_bytes) p.headers

tunnel_totals : totals (packet_encapsulate outer inner) ≡ 54 ∷ 34 ∷ 30 ∷ 10 ∷ []
unfolding packet_encapsulate
tunnel_totals = refl

-- A GRE header that routes fails an assert of `gre_len`.
routed :
    packet_encapsulate
      (record outer { buffer = 69 ∷ (replicate 19 0 ++ (0x40 ∷ 0 ∷ 0 ∷ 0 ∷ [])) })
      inner
    ≡ none
unfolding packet_encapsulate
routed = refl
