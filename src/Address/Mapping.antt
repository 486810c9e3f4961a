-- ===== src/Address/Mapping.antt =====
-- Round trips of addresses.
use qo_smos.Prelude.{ℕ, ◌^◌, ◌<◌, ◌≡◌, refl, ap, List, [], ◌∷◌, some, arith, length, take, ==_refl}
use qo_smos.Address.{
  af_inet, sockaddr_length, IpAddress, ipv6_map_from_ipv4, ipv6_map_to_ipv4, swap_port,
  ip_to_sockaddr, ip_from_sockaddr,
}

-- The first 4 bytes of a list of that length.
all_four : (bytes : List ℕ) → length bytes ≡ 4 → take 4 (take 4 bytes) ≡ bytes
all_four (a ∷ b ∷ c ∷ d ∷ []) h = refl
all_four [] h = absurd (omega arith)
all_four (a ∷ []) h = absurd (omega arith)
all_four (a ∷ b ∷ []) h = absurd (omega arith)
all_four (a ∷ b ∷ c ∷ []) h = absurd (omega arith)
all_four (a ∷ b ∷ c ∷ d ∷ e ∷ rest) h = absurd (omega arith)

swap_twice : (port : ℕ) → port < 2 ^ 16 → swap_port (swap_port port) ≡ port
unfolding swap_port
swap_twice port h = omega arith

-- An IPv4 address of 4 bytes is mapped to IPv6 and back to itself; and any address with a port that is written to a socket address is read back with its port.
pub addresses_round_trip :
    (bytes : List ℕ) (ip : IpAddress) (port : ℕ)
    → length bytes ≡ 4
    → port < 2 ^ 16
    → (ipv6_map_to_ipv4 (ipv6_map_from_ipv4 (record { family = af_inet; bytes = bytes }))
        ≡ some (record { family = af_inet; bytes = bytes }))
      × (ip_from_sockaddr (ip_to_sockaddr ip port) ≡ some (ip, port))
unfolding ipv6_map_to_ipv4 ipv6_map_from_ipv4 ip_from_sockaddr ip_to_sockaddr
addresses_round_trip bytes ip port four word = (
  ap (λ b. some (record { family = af_inet; bytes = b })) (all_four bytes four),
  rw (==_refl (sockaddr_length ip.family), swap_twice port word) refl,
)
