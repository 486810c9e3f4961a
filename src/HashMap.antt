-- ===== src/HashMap.antt =====
-- The map from `u32` to `u32` of app/src/main/cpp/hash_map.c. A bucket's linked list of nodes is
-- the list of its keys and values, and the bucket array is the list of these. The sizes stay below
-- 2 ^ 33, so no `size_t` wraps: there are at most 2 ^ 30 buckets, and the keys are distinct words.
pub mod Chains
pub mod Sizing
pub mod Placement
pub mod Growth
pub mod Lookup
use qo_smos.Prelude.{
  ℕ, zero, suc, ◌+◌, ◌-◌, ◌*◌, ◌/◌, ◌%◌, ◌^◌, Bool, ◌&&◌, true, false, List, [], ◌∷◌, Option, none,
  some, bit_and, ltb, leb, ◌==◌, if◌then◌else◌, get_or, set, replicate,
}
use qo_smos.Murmur.{murmur_hash3_x86_32}

abbrev pub max_buckets : ℕ
max_buckets = 2 ^ 30

-- `struct hash_node`, without its `next`
abbrev pub Chain : Type 0
Chain = List (ℕ × ℕ)

-- `struct hash_map`
pub record HashMap : Type 0 where
  pub num_keys : ℕ
  pub num_buckets : ℕ
  pub bucket_mask : ℕ
  pub buckets : List Chain

-- The key is hashed by its four bytes in memory.
unfoldable pub hash_key : ℕ → ℕ
unfolding murmur_hash3_x86_32
hash_key key =
    murmur_hash3_x86_32
      (key % 256 ∷ key / 2 ^ 8 % 256 ∷ key / 2 ^ 16 % 256 ∷ key / 2 ^ 24 % 256 ∷ []) 0

unfoldable pub hash_bucket_num : HashMap → ℕ → ℕ
unfolding hash_key
hash_bucket_num map key = bit_and (hash_key key) map.bucket_mask

-- The loop doubles at most 30 times: `Sizing` proves that it ends by its test.
pub pick_loop : ℕ → ℕ → ℕ → ℕ
pick_loop zero num_keys buckets = buckets
pick_loop (suc fuel) num_keys buckets =
    let rest = pick_loop fuel num_keys (buckets * 2) in
    if ltb buckets num_keys && ltb buckets max_buckets then rest else buckets

unfoldable pub hash_map_pick_bucket_count : ℕ → ℕ
unfolding pick_loop
hash_map_pick_bucket_count num_keys = pick_loop 30 num_keys 1

unfoldable pub hash_map_new : ℕ → HashMap
hash_map_new num_keys =
    let n = hash_map_pick_bucket_count num_keys in
    record { num_keys = 0; num_buckets = n; bucket_mask = n - 1; buckets = replicate n [] }

pub hash_map_link : HashMap → ℕ → ℕ → HashMap
hash_map_link map key value =
    let b = hash_bucket_num map key in
    record map { buckets = set map.buckets b ((key, value) ∷ get_or map.buckets b []) }

-- The inner loop of `hash_map_grow`, over the nodes of one old bucket.
pub relink_nodes : Chain → HashMap → HashMap
relink_nodes [] map = map
relink_nodes ((k, v) ∷ nodes) map = relink_nodes nodes (hash_map_link map k v)

-- Its outer loop, over the old buckets.
pub relink_buckets : List Chain → HashMap → HashMap
relink_buckets [] map = map
relink_buckets (c ∷ cs) map = relink_buckets cs (relink_nodes c map)

pub hash_map_grow : HashMap → HashMap
hash_map_grow map =
    let n = map.num_buckets * 2 in
    relink_buckets map.buckets
      (record map { num_buckets = n; bucket_mask = n - 1; buckets = replicate n [] })

pub hash_map_insert : HashMap → ℕ → ℕ → HashMap
hash_map_insert map key value =
    let grown =
      if leb map.num_buckets map.num_keys && ltb map.num_buckets max_buckets
      then hash_map_grow map
      else map in
    hash_map_link (record grown { num_keys = grown.num_keys + 1 }) key value

-- The walk of `hash_map_get` along one bucket.
pub find : ℕ → Chain → Option ℕ
find key [] = none
find key ((k, v) ∷ nodes) = if k == key then some v else find key nodes

-- The walk of `hash_map_set`: the bucket with the node's value replaced, `none` if there is none.
pub replace : ℕ → ℕ → Chain → Option Chain
replace key value [] = none
replace key value ((k, v) ∷ nodes) =
    if k == key
    then some ((k, value) ∷ nodes)
    else elim (replace key value nodes) [ none ↦ none | some rest ↦ some ((k, v) ∷ rest) ]

unfoldable pub hash_map_set : HashMap → ℕ → ℕ → HashMap
unfolding replace hash_map_insert hash_map_grow relink_buckets relink_nodes hash_map_link
hash_map_set map key value =
    let b = hash_bucket_num map key in
    elim (replace key value (get_or map.buckets b [])) [
      | some chain ↦ record map { buckets = set map.buckets b chain }
      | none ↦ hash_map_insert map key value
    ]

-- The value that goes through `*value`, with the result `true`; `none` is `false`.
unfoldable pub hash_map_get : HashMap → ℕ → Option ℕ
unfolding find
hash_map_get map key = find key (get_or map.buckets (hash_bucket_num map key) [])
