-- ===== src/Tests/Sums.antt =====
-- Runs of the checksum.
use qo_smos.Prelude.{ℕ, ◌≡◌, refl, List, [], ◌∷◌, arith}
use qo_smos.Checksum.{ipv4_checksum}
use qo_smos.Checksum.Fold.{complement16}
use qo_smos.Checksum.Sum.{IsBytes, words16, ipv4_checksum-eq-rfc1071}
use qo_smos.Checksum.Fill.{put16, zeroed}

-- A header of 20 bytes with its checksum, b1 e6 in this example, in place
abbrev header : List ℕ
header =
    0x45 ∷ 0x00 ∷ 0x00 ∷ 0x73 ∷ 0x00 ∷ 0x00 ∷ 0x40 ∷ 0x00 ∷ 0x40 ∷ 0x11 ∷ 0xb8 ∷ 0x61 ∷ 0xc0 ∷ 0xa8
    ∷ 0x00 ∷ 0x01 ∷ 0xc0 ∷ 0xa8 ∷ 0x00 ∷ 0xc7 ∷ []

abbrev odd_bytes : List ℕ
odd_bytes = 1 ∷ 2 ∷ 3 ∷ 4 ∷ 5 ∷ 6 ∷ 7 ∷ []

header_checks : (ipv4_checksum header ≡ 0) × (ipv4_checksum (zeroed header 5) ≡ 0x61b8)
unfolding ipv4_checksum put16
header_checks = (refl, refl)

header-IsBytes : IsBytes header
header-IsBytes = omega arith

ipv4_checksum-eq-rfc1071_example : ipv4_checksum odd_bytes ≡ complement16 (words16 odd_bytes)
ipv4_checksum-eq-rfc1071_example = ipv4_checksum-eq-rfc1071 odd_bytes (omega arith) (omega arith)

-- UDP from port 53 to port 53 with one byte of payload; the checksum is at byte 6.
abbrev udp_segment : List ℕ
udp_segment = 0 ∷ 53 ∷ 0 ∷ 53 ∷ 0 ∷ 9 ∷ 0 ∷ 0 ∷ 65 ∷ []

abbrev src_v4 : List ℕ
src_v4 = 10 ∷ 0 ∷ 0 ∷ 1 ∷ []

abbrev dst_v4 : List ℕ
dst_v4 = 10 ∷ 0 ∷ 0 ∷ 2 ∷ []

abbrev addr_v6 : List ℕ
addr_v6 = 32 ∷ 1 ∷ 13 ∷ 184 ∷ 0 ∷ 0 ∷ 0 ∷ 0 ∷ 0 ∷ 0 ∷ 0 ∷ 0 ∷ 0 ∷ 0 ∷ 0 ∷ 1 ∷ []
