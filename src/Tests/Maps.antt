-- ===== src/Tests/Maps.antt =====
-- Runs of the hash and of the hash map.
use qo_smos.Prelude.{◌+◌, ◌^◌, ◌≡◌, refl, [], ◌∷◌, none, some}
use qo_smos.Murmur.{murmur_hash3_x86_32}
use qo_smos.HashMap.{
  HashMap, hash_bucket_num, hash_map_new, hash_map_set, hash_map_get, hash_map_pick_bucket_count,
}
use qo_smos.HashMap.Lookup.{IsValid, hash_map_new-IsValid, hash_map_set-IsValid, hash_map_get-set}

-- The published value for "test" and seed 0
murmur_test : murmur_hash3_x86_32 (0x74 ∷ 0x65 ∷ 0x73 ∷ 0x74 ∷ []) 0 ≡ 0xba6bd213
unfolding murmur_hash3_x86_32
murmur_test = refl

bucket_counts :
    (hash_map_pick_bucket_count 0 ≡ 1)
    × (hash_map_pick_bucket_count 5 ≡ 8)
    × (hash_map_pick_bucket_count (2 ^ 30 + 1) ≡ 2 ^ 30)
unfolding hash_map_pick_bucket_count
bucket_counts = (refl, refl, refl)

abbrev small : HashMap
small = hash_map_new 1

-- Two keys in a map made for one: the second makes it grow.
abbrev two_keys : HashMap
two_keys = hash_map_set (hash_map_set small 7 70) 9 90

two_keys_grown :
    (two_keys.num_buckets ≡ 2)
    × (hash_map_get two_keys 7 ≡ some 70)
    × (hash_map_get two_keys 9 ≡ some 90)
    × (hash_map_get two_keys 8 ≡ none)
unfolding hash_map_set hash_map_get hash_map_new hash_map_pick_bucket_count hash_bucket_num
two_keys_grown = (refl, refl, refl, refl)

small-IsValid : IsValid small
small-IsValid = (hash_map_new-IsValid 1).0

one_key-IsValid : IsValid (hash_map_set small 7 70)
one_key-IsValid = hash_map_set-IsValid small 7 70 small-IsValid

hash_map_set-IsValid_example : IsValid two_keys
hash_map_set-IsValid_example = hash_map_set-IsValid (hash_map_set small 7 70) 9 90 one_key-IsValid

hash_map_get-set_example : hash_map_get two_keys 7 ≡ hash_map_get (hash_map_set small 7 70) 7
hash_map_get-set_example = hash_map_get-set (hash_map_set small 7 70) 9 90 7 one_key-IsValid
