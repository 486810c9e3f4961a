-- ===== src/Tests/Addresses.antt =====
-- Runs of addresses and prefixes.
use qo_smos.Prelude.{◌*◌, ◌/◌, ◌^◌, ◌≡◌, refl, [], ◌∷◌, some, arith}
use qo_smos.Address.{
  IpAddress, IpPrefix, af_inet, ipv6_map_from_ipv4, ipv6_map_to_ipv4, ip_to_sockaddr,
  ip_from_sockaddr, ip_to_prefix, ip_prefix_normalize, netmask_to_prefix, random_ipv6_host,
  ip_address_length,
}
use qo_smos.Address.Mapping.{addresses_round_trip}
use qo_smos.Address.Prefix.{number, ip_prefix_normalize-number}

abbrev host : IpAddress
host = record { family = af_inet; bytes = 192 ∷ 168 ∷ 213 ∷ 7 ∷ [] }

abbrev in_twenty : IpPrefix
in_twenty = record { ip = host; prefix_len = 20 }

addresses_round_trip_example :
    (ipv6_map_to_ipv4 (ipv6_map_from_ipv4 host) ≡ some host)
    × (ip_from_sockaddr (ip_to_sockaddr host 8080) ≡ some (host, 8080))
addresses_round_trip_example =
    addresses_round_trip (192 ∷ 168 ∷ 213 ∷ 7 ∷ []) host 8080 refl (omega arith)

a_prefix : ip_to_prefix host 20 ≡ some in_twenty
unfolding ip_to_prefix
a_prefix = refl

four_bytes : 4 ≡ ip_address_length af_inet
unfolding ip_address_length
four_bytes = refl

ip_prefix_normalize-number_example :
    number (ip_prefix_normalize in_twenty).ip.bytes ≡ 3232288775 / 2 ^ 12 * 2 ^ 12
unfolding ip_address_length
ip_prefix_normalize-number_example =
    ip_prefix_normalize-number host 20 in_twenty
      (omega arith, (omega arith, (omega arith, (omega arith, tt)))) four_bytes a_prefix

normalized_bytes : (ip_prefix_normalize in_twenty).ip.bytes ≡ 192 ∷ 168 ∷ 208 ∷ 0 ∷ []
unfolding ip_prefix_normalize
normalized_bytes = refl

a_netmask : netmask_to_prefix 0xfffff000 ≡ 20
unfolding netmask_to_prefix
a_netmask = refl

-- A prefix of all 128 bits has no host bits, but the lowest bit is set.
single_host : random_ipv6_host 128 12345 ≡ 1
unfolding random_ipv6_host
single_host = refl
