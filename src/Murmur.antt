-- ===== src/Murmur.antt =====
-- MurmurHash3_x86_32 of app/src/main/cpp/hash.c. Words are read in little-endian order, as on the
-- platforms that the application is built for.
use qo_smos.Prelude.{ℕ, ◌+◌, ◌-◌, ◌*◌, ◌/◌, ◌%◌, ◌^◌, List, [], ◌∷◌, bit_xor, length}
use Prim.Native.Nat.{bit_or}
use qo_smos.Prelude.Words.{u32_mod}

-- `x` and `r` with `0 < r < 32`
pub rotl32 : ℕ → ℕ → ℕ
rotl32 x r = bit_or (x * 2 ^ r % u32_mod) (x / 2 ^ (32 - r))

pub mul32 : ℕ → ℕ → ℕ
mul32 a b = a * b % u32_mod

pub fmix_32 : ℕ → ℕ
unfolding mul32
fmix_32 h =
    let h1 = mul32 (bit_xor h (h / 2 ^ 16)) 0x85ebca6b in
    let h2 = mul32 (bit_xor h1 (h1 / 2 ^ 13)) 0xc2b2ae35 in bit_xor h2 (h2 / 2 ^ 16)

-- The scrambling of one block, shared by the body and the tail.
pub mix_k1 : ℕ → ℕ
unfolding mul32 rotl32
mix_k1 k1 = mul32 (rotl32 (mul32 k1 0xcc9e2d51) 15) 0x1b873593

pub murmur_body : ℕ → List ℕ → ℕ
unfolding mix_k1 rotl32
murmur_body h1 (a ∷ b ∷ c ∷ d ∷ rest) =
    let k1 = a + b * 2 ^ 8 + c * 2 ^ 16 + d * 2 ^ 24 in
    murmur_body ((rotl32 (bit_xor h1 (mix_k1 k1)) 13 * 5 + 0xe6546b64) % u32_mod) rest
murmur_body h1 (a ∷ b ∷ c ∷ []) = bit_xor h1 (mix_k1 (bit_xor (bit_xor (c * 2 ^ 16) (b * 2 ^ 8)) a))
murmur_body h1 (a ∷ b ∷ []) = bit_xor h1 (mix_k1 (bit_xor (b * 2 ^ 8) a))
murmur_body h1 (a ∷ []) = bit_xor h1 (mix_k1 a)
murmur_body h1 [] = h1

-- The hash of the `len` bytes at `key`.
unfoldable pub murmur_hash3_x86_32 : List ℕ → ℕ → ℕ
unfolding murmur_body fmix_32
murmur_hash3_x86_32 key seed = fmix_32 (bit_xor (murmur_body seed key) (length key))
