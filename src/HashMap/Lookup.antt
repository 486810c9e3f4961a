-- ===== src/HashMap/Lookup.antt =====
-- `hash_map_set` and `hash_map_get` as an update and a look-up of a finite map, through growth.
use qo_smos.Prelude.{
  ℕ, suc, ◌+◌, ◌^◌, ◌≤◌, ◌<◌, ◌≡◌, ◌⊎◌, ◌∙◌, inl, inr, refl, [], ◌∷◌, none, some, arith, ◌==◌, ◌&&◌,
  ltb, leb, if◌then◌else◌, length, get_or, Bool-cases, Option-cases, pow_two, two_pow_pos,
}
use native.Mathlib.Nat.{pow-le-pow_right}
use native.Mathlib.Decide.{dec_lt}
use qo_smos.HashMap.{
  Chain, HashMap, max_buckets, hash_bucket_num, hash_map_new, hash_map_link, hash_map_get,
  hash_map_grow, hash_map_pick_bucket_count, hash_map_insert, hash_map_set, replace,
}
use qo_smos.HashMap.Chains.{count, nodes_of, count_of_find, Replaced, replace-some, replace-none}
use qo_smos.HashMap.Sizing.{hash_map_pick_bucket_count-Picked}
use qo_smos.HashMap.Placement.{
  IsPlaced, with_bucket, get-with_bucket, length-with_bucket, with_bucket-IsPlaced,
}
use qo_smos.HashMap.Growth.{
  link-Linked, grow-Grown, emptied-IsPlaced, get-emptied, nodes_of-replicate,
}

-- A map that the operations below keep: placed nodes, a power of two of buckets up to
-- `max_buckets`, the right key count, and at most one key per bucket on average until the bucket
-- array has its largest size.
pub record IsValid (m : HashMap) : Type 0 where
  pub placed : IsPlaced m (λ j. 0)
  pub power : (k : ℕ) × (m.num_buckets ≡ 2 ^ k) × (k ≤ 30)
  pub counted : m.num_keys ≡ length (nodes_of m.buckets)
  pub load : (m.num_keys ≤ m.num_buckets) ⊎ (m.num_buckets ≡ max_buckets)

-- What an insertion of a new key leaves, growth included.
record Inserted (m : HashMap) (key value : ℕ) (m' : HashMap) : Type 0 where
  valid : IsValid m'
  reads : (j : ℕ) → hash_map_get m' j ≡ (if key == j then some value else hash_map_get m j)
  keys : m'.num_keys ≡ m.num_keys + 1

count_of_get :
    (m : HashMap) (j i : ℕ)
    → IsPlaced m (λ j. 0)
    → hash_map_get m j ≡ none
    → count j (get_or m.buckets i []) ≡ 0
unfolding hash_map_get
count_of_get m j i p h = ground (arith, p.away j i, count_of_find j (get_or m.buckets i []))

insert_link :
    (m : HashMap) (key value : ℕ)
    → IsPlaced m (λ j. 0)
    → hash_map_get m key ≡ none
    → IsPlaced m (λ j. count j ((key, value) ∷ []))
unfolding count
insert_link m key value p absent = record {
  sized = p.sized;
  masked = p.masked;
  once = λ j i. ground (arith, p.once j i, count_of_get m key i p absent);
  away = p.away;
}

-- The key count has no part in where nodes stand.
module _ (m : HashMap) (n : ℕ) where
  rekeyed-IsPlaced : {extra : ℕ → ℕ} → IsPlaced m extra → IsPlaced (record m { num_keys = n }) extra
  unfolding hash_bucket_num
  rekeyed-IsPlaced p = record { sized = p.sized; masked = p.masked; once = p.once; away = p.away }

  get-rekeyed : (j : ℕ) → hash_map_get (record m { num_keys = n }) j ≡ hash_map_get m j
  unfolding hash_map_get hash_bucket_num
  get-rekeyed j = refl

insert_grown :
    (m g : HashMap) (key value : ℕ)
    → IsValid m
    → IsPlaced g (λ j. 0)
    → ((j : ℕ) → hash_map_get g j ≡ hash_map_get m j)
    → length (nodes_of g.buckets) ≡ length (nodes_of m.buckets)
    → g.num_keys ≡ m.num_keys
    → ((k : ℕ) × (g.num_buckets ≡ 2 ^ k) × (k ≤ 30))
    → (m.num_keys + 1 ≤ g.num_buckets) ⊎ (g.num_buckets ≡ max_buckets)
    → hash_map_get m key ≡ none
    → Inserted m key value (hash_map_link (record g { num_keys = g.num_keys + 1 }) key value)
unfolding count
insert_grown m g key value v p reads size keys power load absent =
    let one =
      link-Linked (record g { num_keys = g.num_keys + 1 }) key value []
        (rekeyed-IsPlaced g (g.num_keys + 1) (insert_link g key value p (reads key ∙ absent))) in
    record {
      valid = record {
        placed = one.placed;
        power = (power.0, one.width ∙ power.1, power.2);
        counted = omega (arith, one.size, one.keys, keys, size, v.counted);
        load = ground (arith, one.keys, one.width, load);
      };
      reads = λ j. ground (arith, one.reads j, get-rekeyed g (g.num_keys + 1) j, reads j);
      keys = omega (arith, one.keys, keys);
    }

exponent_step : (k : ℕ) → k ≤ 30 → 2 ^ k < max_buckets → suc k ≤ 30
exponent_step k small below = elim (dec_lt k 30) [
  | yes p ↦ p
  | no p ↦
      absurd (omega (arith, pow-le-pow_right {n = 2} (omega arith) {i = 30} {j = k} (omega arith)))
]

num_buckets-le : (m : HashMap) → IsValid m → m.num_buckets ≤ max_buckets
num_buckets-le m v =
    let (k, e, small) = v.power in
    omega (arith, e, pow-le-pow_right {n = 2} (omega arith) {i = k} {j = 30} small)

insert-Inserted :
    (m : HashMap) (key value : ℕ)
    → IsValid m
    → hash_map_get m key ≡ none
    → Inserted m key value (hash_map_insert m key value)
unfolding hash_map_insert
insert-Inserted m key value v absent =
    elim (Bool-cases (leb m.num_buckets m.num_keys && ltb m.num_buckets max_buckets)) [
      | inl full ↦
          let (k, e, small) = v.power in
          let g = grow-Grown m v.placed (omega (arith, two_pow_pos k)) in
          rw full (
            insert_grown m (hash_map_grow m) key value v g.placed g.reads g.size g.keys
              (
                suc k,
                omega (arith, g.width, pow_two k),
                exponent_step k small (ground (arith, full)),
              )
              (ground (arith, v.load, g.width, two_pow_pos k)) absent)
      | inr room ↦ rw room (
          insert_grown m m key value v v.placed (λ j. refl) refl refl v.power
            (ground (arith, v.load, num_buckets-le m v)) absent)
    ]

-- A key's node, if there is one, stands in the bucket that `hash_map_set` walks.
set_present :
    (m : HashMap) (key value : ℕ) (d : Chain)
    → IsValid m
    → Replaced key value (get_or m.buckets (hash_bucket_num m key) []) d
    → IsValid (with_bucket m key d)
      × ((j : ℕ)
          → hash_map_get (with_bucket m key d) j
            ≡ (if key == j then some value else hash_map_get m j))
unfolding hash_map_get
set_present m key value d v r = (
  record {
    placed =
        with_bucket-IsPlaced m key d v.placed (λ j. 0)
          (λ j. omega (arith, r.counts j, v.placed.once j (hash_bucket_num m key)))
          (λ j. omega arith)
          (λ j n. omega (arith, r.counts j, v.placed.away j (hash_bucket_num m key) n));
    power = v.power;
    counted = omega (arith, v.counted, r.lengths, length-with_bucket m key d v.placed);
    load = v.load;
  },
  λ j. ground (arith, get-with_bucket m key d v.placed j, r.reads j),
)

set_both :
    (m : HashMap) (key value : ℕ)
    → IsValid m
    → IsValid (hash_map_set m key value)
      × ((j : ℕ)
          → hash_map_get (hash_map_set m key value) j
            ≡ (if key == j then some value else hash_map_get m j))
unfolding hash_map_set
set_both m key value v =
    elim (Option-cases (replace key value (get_or m.buckets (hash_bucket_num m key) []))) [
      | inl missing ↦
          let absent : hash_map_get m key ≡ none =
            unfold hash_map_get in
            replace-none key value (get_or m.buckets (hash_bucket_num m key) []) missing in
          let new = insert-Inserted m key value v absent in
          rw (missing, hash_map_set) (new.valid, new.reads)
      | inr (d, found) ↦
          rw (found, hash_map_set) (set_present m key value d v (replace-some key value _ d found))
    ]

-- `hash_map_set` keeps the invariant, growth of the bucket array included.
pub hash_map_set-IsValid :
    (m : HashMap) (key value : ℕ) → IsValid m → IsValid (hash_map_set m key value)
hash_map_set-IsValid m key value v = (set_both m key value v).0

-- In a valid map, a `hash_map_get` after a `hash_map_set` finds the value set at that key, and at
-- every other key what the map held before, whether the map grew or not.
pub hash_map_get-set :
    (m : HashMap) (key value j : ℕ)
    → IsValid m
    → hash_map_get (hash_map_set m key value) j
      ≡ (if key == j then some value else hash_map_get m j)
hash_map_get-set m key value j v = (set_both m key value v).1 j

-- A new map, for any number of keys, satisfies the invariant and holds no key.
pub hash_map_new-IsValid :
    (num_keys : ℕ)
    → IsValid (hash_map_new num_keys) × ((j : ℕ) → hash_map_get (hash_map_new num_keys) j ≡ none)
unfolding hash_map_new
hash_map_new-IsValid num_keys =
    let n = hash_map_pick_bucket_count num_keys in
    let picked = hash_map_pick_bucket_count-Picked num_keys in
    let (k, e, small) = picked.power in
    let start : HashMap = record { num_keys = 0; num_buckets = n; bucket_mask = 0; buckets = [] } in
    (
      record {
        placed =
            emptied-IsPlaced start n (λ j. 0) (omega (arith, e, two_pow_pos k)) (λ j. omega arith);
        power = picked.power;
        counted = rw (nodes_of-replicate n);
        load = inl (omega arith);
      },
      get-emptied start n,
    )
