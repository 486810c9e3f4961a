-- ===== src/Building/Header.antt =====
-- An IPv4 header without options, read by the parser and summed.
use qo_smos.Prelude.{
  ℕ, zero, suc, ◌+◌, ◌*◌, ◌/◌, ◌%◌, ◌^◌, ◌≤◌, ◌<◌, ◌≡◌, List, [], ◌∷◌, length, replicate, arith,
}
use qo_smos.Checksum.{ipv4_checksum}
use qo_smos.Checksum.Fill.{put16, filled-verifies}
use qo_smos.Checksum.Sum.{IsBytes}
use qo_smos.Socket.{Tuple}
use qo_smos.Parser.Outcome.{Reason, pass, ◌>>=◌, refuse, assert, read8, read16}
use qo_smos.Parser.Checks.{check_ipv4, check_layer3, read_bytes}

-- A header without options in front of `rest`.
abbrev pub header_of :
    ℕ → ℕ → ℕ → ℕ → ℕ → ℕ → ℕ → (ℕ × ℕ × ℕ × ℕ) → (ℕ × ℕ × ℕ × ℕ) → List ℕ → List ℕ
header_of tos hi lo ttl proto c k (a, b, c', d) (e, f, g, h) rest =
    0x45 ∷ tos ∷ hi ∷ lo ∷ 0 ∷ 0 ∷ 0 ∷ 0 ∷ ttl ∷ proto ∷ c ∷ k ∷ a ∷ b ∷ c' ∷ d ∷ e ∷ f ∷ g ∷ h
    ∷ rest

module _ (tos hi lo ttl proto c k : ℕ) (src dst : ℕ × ℕ × ℕ × ℕ) (rest : List ℕ) (total : ℕ)
    (says_total : hi * 2 ^ 8 + lo ≡ total) (enough : 20 ≤ total)
    (whole : length rest + 20 ≡ total) where
  pub check_layer3_of_header :
      (reason : Reason)
      → check_layer3 (header_of tos hi lo ttl proto c k src dst rest) 0 total 20 reason ≡ pass 4
  unfolding check_layer3 ◌>>=◌ refuse read8
  check_layer3_of_header reason = ground arith

  pub check_ipv4_of_header :
      ipv4_checksum (header_of tos hi lo ttl proto c k src dst []) ≡ 0
      → check_ipv4 (header_of tos hi lo ttl proto c k src dst rest) 0 total
        ≡ pass (record { header = 20; total = total; protocol = proto })
  unfolding check_ipv4 ◌>>=◌ refuse assert read8 read16 read_bytes
  check_ipv4_of_header sum = ground arith

abbrev pub AreBytes : (ℕ × ℕ × ℕ × ℕ) → Type 0
AreBytes (a, b, c, d) = (a < 256) × (b < 256) × (c < 256) × (d < 256)

abbrev pub ip_list : (ℕ × ℕ × ℕ × ℕ) → List ℕ
ip_list (a, b, c, d) = a ∷ b ∷ c ∷ d ∷ []

-- The addresses and ports of a live connection.
abbrev pub live_tuple_of : ℕ → ℕ → (ℕ × ℕ × ℕ × ℕ) → (ℕ × ℕ × ℕ × ℕ) → Tuple
live_tuple_of sport dport src dst = record {
  src = record { ip = ip_list src; port = sport };
  dst = record { ip = ip_list dst; port = dport };
}

-- A header without a checksum, and its checksum.
abbrev pub sum_of : ℕ → ℕ → ℕ → ℕ → ℕ → (ℕ × ℕ × ℕ × ℕ) → (ℕ × ℕ × ℕ × ℕ) → ℕ
sum_of tos hi lo ttl proto src dst = ipv4_checksum (header_of tos hi lo ttl proto 0 0 src dst [])

pub header_verifies :
    (tos hi lo ttl proto : ℕ) (src dst : ℕ × ℕ × ℕ × ℕ)
    → tos < 256
    → hi < 256
    → lo < 256
    → ttl < 256
    → proto < 256
    → AreBytes src
    → AreBytes dst
    → let c = sum_of tos hi lo ttl proto src dst in
      ipv4_checksum (header_of tos hi lo ttl proto (c % 2 ^ 8) (c / 2 ^ 8) src dst []) ≡ 0
unfolding ipv4_checksum put16
header_verifies tos hi lo ttl proto (a, b, c, d) (e, f, g, h) t hi' lo' l r s d' =
    filled-verifies 0 (header_of tos hi lo ttl proto 0 0 (a, b, c, d) (e, f, g, h) []) 5
      (omega arith) (omega arith) (omega arith)

pub zeros-IsBytes : (n : ℕ) → IsBytes (replicate n 0)
zeros-IsBytes zero = tt
zeros-IsBytes (suc n) = (omega arith, zeros-IsBytes n)
