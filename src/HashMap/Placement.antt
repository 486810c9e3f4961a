-- ===== src/HashMap/Placement.antt =====
-- Where the nodes of a map stand, and what linking a node does to that.
use qo_smos.Prelude.{
  ℕ, ◌+◌, ◌≤◌, ◌<◌, ◌≡◌, ◌≢◌, refl, [], arith, ◌==◌, if◌then◌else◌, length, get_or, set, length-set,
  get_or-set, bit_and-le,
}
use qo_smos.HashMap.{Chain, HashMap, hash_key, hash_bucket_num, hash_map_get, find}
use qo_smos.HashMap.Chains.{count, nodes_of, length-nodes_of-set}

-- Every node stands in its key's bucket, and a key occurs once at most, also counting the nodes
-- that are still to be linked (`extra`).
pub record IsPlaced (m : HashMap) (extra : ℕ → ℕ) : Type 0 where
  pub sized : length m.buckets ≡ m.num_buckets
  pub masked : m.bucket_mask + 1 ≡ m.num_buckets
  pub once : (j i : ℕ) → count j (get_or m.buckets i []) + extra j ≤ 1
  pub away : (j i : ℕ) → i ≢ hash_bucket_num m j → count j (get_or m.buckets i []) ≡ 0

pub bucket_num-lt :
    (m : HashMap) (j : ℕ) → m.bucket_mask + 1 ≡ m.num_buckets → hash_bucket_num m j < m.num_buckets
unfolding hash_bucket_num
bucket_num-lt m j h = omega (arith, bit_and-le (hash_key j) m.bucket_mask)

-- The map with the home bucket of one key replaced by another chain.
abbrev pub with_bucket : HashMap → ℕ → Chain → HashMap
with_bucket m k c = record m { buckets = set m.buckets (hash_bucket_num m k) c }

pub bucket_num-with_bucket :
    (m : HashMap) (k : ℕ) (c : Chain) (j : ℕ)
    → hash_bucket_num (with_bucket m k c) j ≡ hash_bucket_num m j
unfolding hash_bucket_num
bucket_num-with_bucket m k c j = refl

module _ (m : HashMap) (k : ℕ) (c : Chain) {extra : ℕ → ℕ} (p : IsPlaced m extra) where
  in_range : hash_bucket_num m k < length m.buckets
  in_range = omega (arith, p.sized, bucket_num-lt m k p.masked)

  -- Reading the map after one bucket was replaced.
  pub get-with_bucket :
      (j : ℕ)
      → hash_map_get (with_bucket m k c) j
        ≡ (if hash_bucket_num m k == hash_bucket_num m j then find j c else hash_map_get m j)
  unfolding hash_map_get
  get-with_bucket j =
      rw
        (
          bucket_num-with_bucket m k c j,
          get_or-set m.buckets (hash_bucket_num m k) (hash_bucket_num m j) c [] in_range,
        )
        (ground arith)

  pub length-with_bucket :
      length (nodes_of (with_bucket m k c).buckets)
        + length (get_or m.buckets (hash_bucket_num m k) [])
      ≡ length (nodes_of m.buckets) + length c
  length-with_bucket = length-nodes_of-set m.buckets (hash_bucket_num m k) c in_range

  pub with_bucket-IsPlaced :
      (extra' : ℕ → ℕ)
      → ((j : ℕ) → count j c + extra' j ≤ 1)
      → ((j : ℕ) → extra' j ≤ extra j)
      → ((j : ℕ) → hash_bucket_num m k ≢ hash_bucket_num m j → count j c ≡ 0)
      → IsPlaced (with_bucket m k c) extra'
  with_bucket-IsPlaced extra' few fewer others = record {
    sized = omega (arith, p.sized, length-set m.buckets (hash_bucket_num m k) c);
    masked = p.masked;
    once = λ j i. ground (
      arith,
      get_or-set m.buckets (hash_bucket_num m k) i c [] in_range,
      few j,
      fewer j,
      p.once j i,
    );
    away = λ j i n. ground (
      arith,
      get_or-set m.buckets (hash_bucket_num m k) i c [] in_range,
      bucket_num-with_bucket m k c j,
      others j,
      p.away j i,
      n,
    );
  }
