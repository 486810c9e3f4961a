-- ===== src/Address.antt =====
-- IP addresses and prefixes: app/src/main/cpp/ip_address.c and ip_prefix.c. An address is its bytes, 4
-- or 16 by its family; text forms come from inet_pton and inet_ntop.
pub mod Mapping
pub mod Prefix
pub mod Random
use qo_smos.Prelude.{
  ℕ, zero, suc, ◌+◌, ◌-◌, ◌*◌, ◌/◌, ◌%◌, ◌^◌, Bool, true, false, not, List, [], ◌∷◌, ◌++◌, Option,
  none, some, ltb, ◌==◌, if◌then◌else◌, length, take, drop, set, get_or, replicate,
}
use qo_smos.Socket.{is_equal_ip}

pub data Family : Type 0 where
  af_inet af_inet6 : Family

unfoldable pub ip_address_length : Family → ℕ
ip_address_length af_inet = 4
ip_address_length af_inet6 = 16

unfoldable pub sockaddr_length : Family → ℕ
sockaddr_length af_inet = 16
sockaddr_length af_inet6 = 28

-- `struct ip_address`
pub record IpAddress : Type 0 where
  pub family : Family
  pub bytes : List ℕ

-- ::FFFF:0:0/96
abbrev pub ipv4_mapped_prefix : List ℕ
ipv4_mapped_prefix = 0 ∷ 0 ∷ 0 ∷ 0 ∷ 0 ∷ 0 ∷ 0 ∷ 0 ∷ 0 ∷ 0 ∷ 255 ∷ 255 ∷ []

-- Each copies the 4 bytes of an IPv4 address.
unfoldable pub ipv6_map_from_ipv4 : IpAddress → IpAddress
ipv6_map_from_ipv4 ipv4 = record {
  family = af_inet6;
  bytes = ipv4_mapped_prefix ++ take 4 ipv4.bytes;
}

-- `none` is STATUS_ERR.
unfoldable pub ipv6_map_to_ipv4 : IpAddress → Option IpAddress
unfolding is_equal_ip
ipv6_map_to_ipv4 ipv6 =
    if is_equal_ip (take 12 ipv6.bytes) ipv4_mapped_prefix
    then some (record { family = af_inet; bytes = take 4 (drop 12 ipv6.bytes) })
    else none

-- The fields of `struct sockaddr_in` and `struct sockaddr_in6` that are used, with the length beside them.
pub record Sockaddr : Type 0 where
  pub sa_family : Family
  pub port : ℕ
  pub addr : List ℕ
  pub length : ℕ

-- `htons` and `ntohs` on the bytes of a `u16`
unfoldable pub swap_port : ℕ → ℕ
swap_port port = port % 2 ^ 8 * 2 ^ 8 + port / 2 ^ 8 % 2 ^ 8

unfoldable pub ip_to_sockaddr : IpAddress → ℕ → Sockaddr
unfolding sockaddr_length swap_port
ip_to_sockaddr ip port = record {
  sa_family = ip.family;
  port = swap_port port;
  addr = ip.bytes;
  length = sockaddr_length ip.family;
}

-- `none` is a failed assert on the length.
unfoldable pub ip_from_sockaddr : Sockaddr → Option (IpAddress × ℕ)
unfolding sockaddr_length swap_port
ip_from_sockaddr address =
    if address.length == sockaddr_length address.sa_family
    then some (record { family = address.sa_family; bytes = address.addr }, swap_port address.port)
    else none

-- `struct ip_prefix`
pub record IpPrefix : Type 0 where
  pub ip : IpAddress
  pub prefix_len : ℕ

-- A length that is not negative; `none` is an exit of the program.
unfoldable pub ip_to_prefix : IpAddress → ℕ → Option IpPrefix
unfolding ip_address_length
ip_to_prefix ip prefix_len =
    if ltb (8 * ip_address_length ip.family) prefix_len
    then none
    else some (record { ip = ip; prefix_len = prefix_len })

-- `byte &= ~((1U << pos) - 1)`
abbrev pub clear_low : ℕ → ℕ → ℕ
clear_low pos byte = byte / 2 ^ pos * 2 ^ pos

-- Zeroes from byte `bytes` on, up to the length of the address.
abbrev pub zero_rest : List ℕ → ℕ → ℕ → List ℕ
zero_rest ip bytes max_prefix_bytes = take bytes ip ++ replicate (max_prefix_bytes - bytes) 0

-- `bytes` and `bits` are where the prefix ends.
unfoldable pub normalized_at : List ℕ → ℕ → ℕ → ℕ → List ℕ
normalized_at ip max_prefix_bytes bytes bits =
    if bits == 0
    then zero_rest ip bytes max_prefix_bytes
    else zero_rest (set ip bytes (clear_low (8 - bits) (get_or ip bytes 0))) (bytes + 1)
        max_prefix_bytes

unfoldable pub normalized : List ℕ → ℕ → ℕ → List ℕ
unfolding normalized_at
normalized ip max_prefix_bytes prefix_len =
    normalized_at ip max_prefix_bytes (prefix_len / 8) (prefix_len % 8)

unfoldable pub ip_prefix_normalize : IpPrefix → IpPrefix
unfolding normalized ip_address_length
ip_prefix_normalize prefix = record prefix {
  ip = record prefix.ip {
    bytes = normalized prefix.ip.bytes (ip_address_length prefix.ip.family) prefix.prefix_len;
  };
}

-- The loop of `netmask_to_prefix` from bit `pos - 1` down.
unfoldable pub leading_ones : ℕ → ℕ → ℕ
leading_ones zero mask_addr = 0
leading_ones (suc pos) mask_addr =
    let rest = leading_ones pos mask_addr in if mask_addr / 2 ^ pos % 2 == 0 then 0 else suc rest

-- `mask_addr` is what `ipv4_parse` makes of the text, in host order.
unfoldable pub netmask_to_prefix : ℕ → ℕ
unfolding leading_ones
netmask_to_prefix mask_addr = leading_ones 32 mask_addr

-- The host bits of `generate_random_ipv4_addr` from a random word, for a prefix of less than 31 bits.
unfoldable pub random_ipv4_host : ℕ → ℕ → ℕ
random_ipv4_host prefix_len rnd =
    let mask = 2 ^ (32 - prefix_len) - 1 in
    if prefix_len == 0
    then rnd
    else (let masked = rnd % 2 ^ (32 - prefix_len) in
        let raised = if ltb masked 2 then 2 else masked in
        if raised == mask then raised - 1 else raised)

-- The low word of `generate_random_ipv6_addr`; `mask` is ~0 up to a prefix of 96 bits.
unfoldable pub random_ipv6_host : ℕ → ℕ → ℕ
random_ipv6_host prefixlen rnd =
    let long = ltb 96 prefixlen in
    let mask = if long then 2 ^ (128 - prefixlen) - 1 else 2 ^ 32 - 1 in
    let masked = if long then rnd % 2 ^ (128 - prefixlen) else rnd in
    let raised = if masked == 0 then 1 else masked in if raised == mask then raised - 1 else raised
