-- ===== src/HashMap/Growth.antt =====
-- Linking nodes into the buckets, and `hash_map_grow`, which relinks all of them.
use qo_smos.Prelude.{
  ℕ, zero, suc, ◌+◌, ◌-◌, ◌*◌, ◌≤◌, ◌≡◌, ◌∙◌, sym, refl, List, [], ◌∷◌, ◌++◌, none, some, arith,
  ◌==◌, if◌then◌else◌, length, get_or, replicate, length-replicate, get_or-replicate,
}
use qo_smos.HashMap.{
  Chain, HashMap, hash_bucket_num, hash_map_link, hash_map_get, hash_map_grow, find, relink_nodes,
  relink_buckets,
}
use qo_smos.HashMap.Chains.{count, or_else, or_else-none, nodes_of, find-eq-none, nodes_of-only}
use qo_smos.HashMap.Placement.{IsPlaced, get-with_bucket, length-with_bucket, with_bucket-IsPlaced}

-- What linking one node gives, `rest` being the nodes that are still to be linked.
pub record Linked (m : HashMap) (k v : ℕ) (rest : Chain) (m' : HashMap) : Type 0 where
  pub placed : IsPlaced m' (λ j. count j rest)
  pub reads : (j : ℕ) → hash_map_get m' j ≡ (if k == j then some v else hash_map_get m j)
  pub size : length (nodes_of m'.buckets) ≡ suc (length (nodes_of m.buckets))
  pub width : m'.num_buckets ≡ m.num_buckets
  pub keys : m'.num_keys ≡ m.num_keys

pub link-Linked :
    (m : HashMap) (k v : ℕ) (rest : Chain)
    → IsPlaced m (λ j. count j ((k, v) ∷ rest))
    → Linked m k v rest (hash_map_link m k v)
unfolding hash_map_link count find hash_map_get
link-Linked m k v rest p =
    let old = get_or m.buckets (hash_bucket_num m k) [] in
    record {
      placed =
          with_bucket-IsPlaced m k ((k, v) ∷ old) p (λ j. count j rest)
            (λ j. omega (arith, p.once j (hash_bucket_num m k))) (λ j. omega arith)
            (λ j n. ground (arith, p.away j (hash_bucket_num m k)));
      reads = λ j. ground (arith, get-with_bucket m k ((k, v) ∷ old) p j);
      size = omega (arith, length-with_bucket m k ((k, v) ∷ old) p);
      width = refl;
      keys = refl;
    }

pub record Relinked (m : HashMap) (nodes : Chain) (m' : HashMap) : Type 0 where
  pub placed : IsPlaced m' (λ j. 0)
  pub reads : (j : ℕ) → hash_map_get m' j ≡ or_else (find j nodes) (hash_map_get m j)
  pub size : length (nodes_of m'.buckets) ≡ length nodes + length (nodes_of m.buckets)
  pub width : m'.num_buckets ≡ m.num_buckets
  pub keys : m'.num_keys ≡ m.num_keys

relink_nodes-Relinked :
    (nodes : Chain) (m : HashMap)
    → IsPlaced m (λ j. count j nodes)
    → Relinked m nodes (relink_nodes nodes m)
unfolding relink_nodes count find or_else
relink_nodes-Relinked [] m p = record {
  placed = p;
  reads = λ j. refl;
  size = omega arith;
  width = refl;
  keys = refl;
}
relink_nodes-Relinked ((k, v) ∷ nodes) m p =
    let one = link-Linked m k v nodes p in
    let rest = relink_nodes-Relinked nodes (hash_map_link m k v) one.placed in
    record {
      placed = rest.placed;
      reads = λ j. ground (arith, one.reads j, rest.reads j, find-eq-none j nodes, p.once j 0);
      size = omega (arith, one.size, rest.size);
      width = rest.width ∙ one.width;
      keys = rest.keys ∙ one.keys;
    }

relink_nodes-append :
    (a b : Chain) (m : HashMap) → relink_nodes (a ++ b) m ≡ relink_nodes b (relink_nodes a m)
unfolding relink_nodes
relink_nodes-append [] b m = refl
relink_nodes-append ((k, v) ∷ a) b m = relink_nodes-append a b (hash_map_link m k v)

relink_buckets_lem :
    (cs : List Chain) (m : HashMap) → relink_buckets cs m ≡ relink_nodes (nodes_of cs) m
unfolding relink_buckets relink_nodes nodes_of
relink_buckets_lem [] m = refl
relink_buckets_lem (c ∷ cs) m =
    relink_buckets_lem cs (relink_nodes c m) ∙ sym (relink_nodes-append c (nodes_of cs) m)

-- Among all nodes a key is found as in its bucket.
nodes_of-get :
    (m : HashMap) (j : ℕ)
    → IsPlaced m (λ j. 0)
    → (find j (nodes_of m.buckets) ≡ hash_map_get m j) × (count j (nodes_of m.buckets) ≤ 1)
unfolding hash_map_get
nodes_of-get m j p =
    let (found, counted) = nodes_of-only j m.buckets (hash_bucket_num m j) (p.away j) in
    (found, omega (arith, p.once j (hash_bucket_num m j)))

-- The map that `hash_map_grow` starts from, whose buckets are empty.
module _ (m : HashMap) (n : ℕ) where
  abbrev pub emptied : HashMap
  emptied = record m { num_buckets = n; bucket_mask = n - 1; buckets = replicate n [] }

  pub emptied-IsPlaced : (extra : ℕ → ℕ) → 1 ≤ n → ((j : ℕ) → extra j ≤ 1) → IsPlaced emptied extra
  unfolding count
  emptied-IsPlaced extra pos few = record {
    sized = length-replicate n [];
    masked = omega arith;
    once = λ j i. rw (get_or-replicate {A = Chain} n i []) (omega (arith, few j));
    away = λ j i ne. rw (get_or-replicate {A = Chain} n i []);
  }

  pub get-emptied : (j : ℕ) → hash_map_get emptied j ≡ none
  unfolding hash_map_get find
  get-emptied j = rw (get_or-replicate {A = Chain} n (hash_bucket_num emptied j) [])

pub nodes_of-replicate : (n : ℕ) → nodes_of (replicate n []) ≡ []
unfolding nodes_of
nodes_of-replicate zero = refl
nodes_of-replicate (suc n) = nodes_of-replicate n

pub record Grown (m m' : HashMap) : Type 0 where
  pub placed : IsPlaced m' (λ j. 0)
  pub reads : (j : ℕ) → hash_map_get m' j ≡ hash_map_get m j
  pub size : length (nodes_of m'.buckets) ≡ length (nodes_of m.buckets)
  pub width : m'.num_buckets ≡ m.num_buckets * 2
  pub keys : m'.num_keys ≡ m.num_keys

pub grow-Grown : (m : HashMap) → IsPlaced m (λ j. 0) → 1 ≤ m.num_buckets → Grown m (hash_map_grow m)
unfolding hash_map_grow
grow-Grown m p pos =
    let n = m.num_buckets * 2 in
    let start =
      emptied-IsPlaced m n (λ j. count j (nodes_of m.buckets)) (omega arith)
        (λ j. (nodes_of-get m j p).1) in
    let done = relink_nodes-Relinked (nodes_of m.buckets) (emptied m n) start in
    rw (relink_buckets_lem m.buckets (emptied m n)) (record {
      placed = done.placed;
      reads = λ j.
          done.reads j
          ∙ rw (get-emptied m n j, or_else-none (find j (nodes_of m.buckets)))
              (nodes_of-get m j p).0;
      size = rw (nodes_of-replicate n) at done.size ∙ omega arith;
      width = done.width;
      keys = done.keys;
    })
