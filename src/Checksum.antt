-- ===== src/Checksum.antt =====
-- The Internet checksum of app/src/main/cpp/checksum.c. A buffer is the list of its bytes, and words
-- are read in little-endian order, as on the platforms that the application is built for.
pub mod Fold
pub mod Sum
pub mod Fill
pub mod Segments
use qo_smos.Prelude.{
  ℕ, zero, suc, ◌+◌, ◌-◌, ◌*◌, ◌/◌, ◌%◌, ◌^◌, List, [], ◌∷◌, ◌++◌, ◌==◌, if◌then◌else◌,
}
use qo_smos.Prelude.Words.{u16_mod, u32_mod, u64_mod}

-- `ntohs` and `htons` on a `u16`
abbrev pub swap16 : ℕ → ℕ
swap16 x = x % 2 ^ 8 * 2 ^ 8 + x / 2 ^ 8

-- `*p32` and `*p16`
abbrev pub le32 : ℕ → ℕ → ℕ → ℕ → ℕ
le32 a b c d = a + b * 2 ^ 8 + c * 2 ^ 16 + d * 2 ^ 24

abbrev pub le16 : ℕ → ℕ → ℕ
le16 a b = a + b * 2 ^ 8

-- `sum += x` on a `u64`
abbrev pub add64 : ℕ → ℕ → ℕ
add64 sum x = (sum + x) % u64_mod

-- The list is the `len` bytes at `p`: four at a time, then two, then one, padded on the right.
unfoldable pub ip_checksum_partial : List ℕ → ℕ → ℕ
ip_checksum_partial (a ∷ b ∷ c ∷ d ∷ p) sum = ip_checksum_partial p (add64 sum (le32 a b c d))
ip_checksum_partial (a ∷ b ∷ c ∷ []) sum = add64 (add64 sum (le16 a b)) (swap16 (c * 2 ^ 8))
ip_checksum_partial (a ∷ b ∷ []) sum = add64 sum (le16 a b)
ip_checksum_partial (a ∷ []) sum = add64 sum (swap16 (a * 2 ^ 8))
ip_checksum_partial [] sum = sum

-- `while (sum >> w) sum = (sum >> w) + (sum & (2 ^ w - 1))`, with fuel; `p` is 2 ^ w.
unfoldable pub fold_loop : ℕ → ℕ → ℕ → ℕ
fold_loop p zero sum = sum
fold_loop p (suc fuel) sum =
    let rest = fold_loop p fuel (sum / p + sum % p) in if sum / p == 0 then sum else rest

-- Two rounds of each loop are enough (`Fold`).
unfoldable pub fold_sum : ℕ → ℕ
unfolding fold_loop
fold_sum sum = fold_loop u16_mod 2 (fold_loop u32_mod 2 sum)

-- The complement `~sum`, cut to 16 bits.
unfoldable pub ip_checksum_fold : ℕ → ℕ
unfolding fold_sum
ip_checksum_fold sum = u16_mod - 1 - fold_sum sum % u16_mod

unfoldable pub ipv4_checksum : List ℕ → ℕ
unfolding ip_checksum_partial ip_checksum_fold
ipv4_checksum header = ip_checksum_fold (ip_checksum_partial header 0)

-- The pseudo-header's bytes: two addresses, a zero, the protocol, and the length in network order.
unfoldable pub pseudo_v4 : List ℕ → List ℕ → ℕ → ℕ → List ℕ
pseudo_v4 src_ip dst_ip protocol len =
    src_ip ++ (dst_ip ++ (0 ∷ protocol ∷ len / 2 ^ 8 ∷ len % 2 ^ 8 ∷ []))

-- RFC 2460's has the length in four bytes, three zeros and the next header.
unfoldable pub pseudo_v6 : List ℕ → List ℕ → ℕ → ℕ → List ℕ
pseudo_v6 src_ip dst_ip protocol len =
    src_ip
    ++ (dst_ip
        ++ (len / 2 ^ 24 % 2 ^ 8
            ∷ len / 2 ^ 16 % 2 ^ 8
            ∷ len / 2 ^ 8 % 2 ^ 8
            ∷ len % 2 ^ 8
            ∷ 0
            ∷ 0
            ∷ 0
            ∷ protocol
            ∷ []))

unfoldable pub tcp_udp_v4_checksum : List ℕ → List ℕ → ℕ → List ℕ → ℕ → ℕ
unfolding ip_checksum_partial ip_checksum_fold pseudo_v4
tcp_udp_v4_checksum src_ip dst_ip protocol payload len =
    let sum = ip_checksum_partial (pseudo_v4 src_ip dst_ip protocol len) 0 in
    ip_checksum_fold (ip_checksum_partial payload sum)

unfoldable pub tcp_udp_v6_checksum : List ℕ → List ℕ → ℕ → List ℕ → ℕ → ℕ
unfolding ip_checksum_partial ip_checksum_fold pseudo_v6
tcp_udp_v6_checksum src_ip dst_ip protocol payload len =
    let sum = ip_checksum_partial (pseudo_v6 src_ip dst_ip protocol len) 0 in
    ip_checksum_fold (ip_checksum_partial payload sum)
