-- ===== src/Checksum/Segments.antt =====
-- TCP and UDP segments whose checksum field is filled in under a pseudo-header.
use qo_smos.Prelude.{
  ℕ, ◌+◌, ◌*◌, ◌/◌, ◌%◌, ◌^◌, ◌≤◌, ◌<◌, ◌≡◌, List, [], ◌∷◌, ◌++◌, arith, length, length-append,
}
use qo_smos.Prelude.Words.{u8_mod, u16_mod, u32_mod, u64_mod}
use qo_smos.Checksum.{
  ip_checksum_partial, pseudo_v4, pseudo_v6, tcp_udp_v4_checksum, tcp_udp_v6_checksum,
}
use qo_smos.Checksum.Sum.{IsBytes, partial_lem}
use qo_smos.Checksum.Fill.{zeroed, filled, filled-verifies}

pub append-IsBytes : (xs ys : List ℕ) → IsBytes xs → IsBytes ys → IsBytes (xs ++ ys)
append-IsBytes [] ys a b = b
append-IsBytes (x ∷ xs) ys a b = (a.0, append-IsBytes xs ys a.1 b)

pseudo_v4-IsBytes :
    (src dst : List ℕ) (protocol len : ℕ)
    → IsBytes src
    → IsBytes dst
    → protocol < u8_mod
    → len < u16_mod
    → IsBytes (pseudo_v4 src dst protocol len)
unfolding pseudo_v4
pseudo_v4-IsBytes src dst protocol len a b c d =
    append-IsBytes src _ a (append-IsBytes dst _ b (omega arith))

pseudo_v6-IsBytes :
    (src dst : List ℕ) (protocol len : ℕ)
    → IsBytes src
    → IsBytes dst
    → protocol < u8_mod
    → IsBytes (pseudo_v6 src dst protocol len)
unfolding pseudo_v6
pseudo_v6-IsBytes src dst protocol len a b c =
    append-IsBytes src _ a (append-IsBytes dst _ b (omega arith))

-- The sum of a short pseudo-header leaves room for a segment.
pseudo_room :
    (pseudo p : List ℕ)
    → IsBytes pseudo
    → length pseudo ≤ 40
    → length p < 2 ^ 31
    → ip_checksum_partial pseudo 0 + u32_mod * length p < u64_mod
pseudo_room pseudo p bytes short len = omega (arith, (partial_lem pseudo 0 bytes (omega arith)).1)

length_v4 :
    (src dst : List ℕ) (protocol len : ℕ)
    → length src ≡ 4
    → length dst ≡ 4
    → length (pseudo_v4 src dst protocol len) ≤ 40
unfolding pseudo_v4
length_v4 src dst protocol len s d =
    let tail = 0 ∷ protocol ∷ len / 2 ^ 8 ∷ len % 2 ^ 8 ∷ [] in
    omega (arith, s, d, length-append src (dst ++ tail), length-append dst tail)

length_v6 :
    (src dst : List ℕ) (protocol len : ℕ)
    → length src ≡ 16
    → length dst ≡ 16
    → length (pseudo_v6 src dst protocol len) ≤ 40
unfolding pseudo_v6
length_v6 src dst protocol len s d =
    let bytes =
      len / 2 ^ 24 % 2 ^ 8 ∷ len / 2 ^ 16 % 2 ^ 8 ∷ len / 2 ^ 8 % 2 ^ 8 ∷ len % 2 ^ 8 ∷ [] in
    let tail = bytes ++ (0 ∷ 0 ∷ 0 ∷ protocol ∷ []) in
    omega (arith, s, d, length-append src (dst ++ tail), length-append dst tail)

module _ (src dst : List ℕ) (protocol len : ℕ) (p : List ℕ) (i : ℕ) (src_bytes : IsBytes src)
    (dst_bytes : IsBytes dst) (protocol_byte : protocol < u8_mod) (p_bytes : IsBytes p)
    (inside : 2 * i + 1 < length p) (size : length p < 2 ^ 31) where
  -- Over IPv4, a segment of fewer than 2 ^ 31 bytes whose field at an even offset holds the checksum
  -- of the segment with that field zero has checksum 0, for any 4-byte addresses and length field.
  pub tcp_udp_v4_checksum-filled :
      length src ≡ 4
      → length dst ≡ 4
      → len < u16_mod
      → tcp_udp_v4_checksum src dst protocol
          (filled p i (tcp_udp_v4_checksum src dst protocol (zeroed p i) len))
          len
        ≡ 0
  unfolding tcp_udp_v4_checksum
  tcp_udp_v4_checksum-filled four_src four_dst small =
      let pseudo = pseudo_v4 src dst protocol len in
      filled-verifies (ip_checksum_partial pseudo 0) p i p_bytes inside (
        pseudo_room pseudo p
          (pseudo_v4-IsBytes src dst protocol len src_bytes dst_bytes protocol_byte small)
          (length_v4 src dst protocol len four_src four_dst) size)

  -- Over IPv6, the same for 16-byte addresses and any length field.
  pub tcp_udp_v6_checksum-filled :
      length src ≡ 16
      → length dst ≡ 16
      → tcp_udp_v6_checksum src dst protocol
          (filled p i (tcp_udp_v6_checksum src dst protocol (zeroed p i) len))
          len
        ≡ 0
  unfolding tcp_udp_v6_checksum
  tcp_udp_v6_checksum-filled s d =
      let pseudo = pseudo_v6 src dst protocol len in
      filled-verifies (ip_checksum_partial pseudo 0) p i p_bytes inside (
        pseudo_room pseudo p
          (pseudo_v6-IsBytes src dst protocol len src_bytes dst_bytes protocol_byte)
          (length_v6 src dst protocol len s d) size)
