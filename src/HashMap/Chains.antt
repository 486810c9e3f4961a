-- ===== src/HashMap/Chains.antt =====
-- One bucket's list of nodes, and the buckets read in a row.
use qo_smos.Prelude.{
  ℕ, zero, suc, ◌+◌, ◌<◌, ◌≡◌, refl, true, false, List, [], ◌∷◌, ◌++◌, Option, none, some, arith,
  ◌==◌, if◌then◌else◌, length, length-append, get_or, set, ◌≢◌, Bool-cases, Option-cases, inl, inr,
}
use qo_smos.HashMap.{Chain, find, replace}

-- how many nodes hold the key
unfoldable pub count : ℕ → Chain → ℕ
count j [] = 0
count j ((k, v) ∷ nodes) = (if k == j then 1 else 0) + count j nodes

pub find-eq-none : (j : ℕ) (c : Chain) → count j c ≡ 0 → find j c ≡ none
unfolding count find
find-eq-none j [] h = refl
find-eq-none j ((k, v) ∷ c) h = ground (arith, find-eq-none j c)

pub count_of_find : (j : ℕ) (c : Chain) → find j c ≡ none → count j c ≡ 0
unfolding count find
count_of_find j [] h = refl
count_of_find j ((k, v) ∷ c) h = ground (arith, count_of_find j c)

unfoldable pub or_else : Option ℕ → Option ℕ → Option ℕ
or_else none d = d
or_else (some v) d = some v

pub or_else-none : (o : Option ℕ) → or_else o none ≡ o
unfolding or_else
or_else-none none = refl
or_else-none (some v) = refl

pub find-append : (j : ℕ) (a b : Chain) → find j (a ++ b) ≡ or_else (find j a) (find j b)
unfolding find or_else
find-append j [] b = refl
find-append j ((k, v) ∷ a) b = ground (arith, find-append j a b)

pub count-append : (j : ℕ) (a b : Chain) → count j (a ++ b) ≡ count j a + count j b
unfolding count
count-append j [] b = omega arith
count-append j ((k, v) ∷ a) b = omega (arith, count-append j a b)

-- A replacement happens exactly at a key that is there; it changes only that key's value.
pub record Replaced (key value : ℕ) (c d : Chain) : Type 0 where
  pub reads : (j : ℕ) → find j d ≡ (if key == j then some value else find j c)
  pub counts : (j : ℕ) → count j d ≡ count j c
  pub lengths : length d ≡ length c

pub replace-none : (key value : ℕ) (c : Chain) → replace key value c ≡ none → find key c ≡ none
unfolding replace find
replace-none key value [] h = refl
replace-none key value ((k, v) ∷ c) h = ground (arith, replace-none key value c)

Replaced-head :
    (key value k v : ℕ) (c : Chain)
    → (k == key) ≡ true
    → Replaced key value ((k, v) ∷ c) ((k, value) ∷ c)
unfolding find count
Replaced-head key value k v c e = record {
  reads = λ j. ground arith;
  counts = λ j. refl;
  lengths = refl;
}

Replaced-tail :
    (key value k v : ℕ) (c d : Chain)
    → (k == key) ≡ false
    → Replaced key value c d
    → Replaced key value ((k, v) ∷ c) ((k, v) ∷ d)
unfolding find count
Replaced-tail key value k v c d e r = record {
  reads = λ j. ground (arith, r.reads j);
  counts = λ j. omega (arith, r.counts j);
  lengths = omega (arith, r.lengths);
}

pub replace-some :
    (key value : ℕ) (c d : Chain) → replace key value c ≡ some d → Replaced key value c d
unfolding replace
replace-some key value [] d h = cc
replace-some key value ((k, v) ∷ c) d h = elim (Bool-cases (k == key)) [
  | inl e ↦
      let same : (k, value) ∷ c ≡ d = ground arith in rw (← same) (Replaced-head key value k v c e)
  | inr e ↦ elim (Option-cases (replace key value c)) [
    | inl none_left ↦ absurd (ground arith)
    | inr (rest, found) ↦
        let same : (k, v) ∷ rest ≡ d = ground arith in
        rw (← same) (Replaced-tail key value k v c rest e (replace-some key value c rest found))
  ]
]

-- All nodes, bucket by bucket.
unfoldable pub nodes_of : List Chain → Chain
nodes_of [] = []
nodes_of (c ∷ cs) = c ++ nodes_of cs

pub length-nodes_of-set :
    (bs : List Chain) (i : ℕ) (c : Chain)
    → i < length bs
    → length (nodes_of (set bs i c)) + length (get_or bs i []) ≡ length (nodes_of bs) + length c
unfolding nodes_of
length-nodes_of-set [] i c h = absurd (omega arith)
length-nodes_of-set (x ∷ bs) zero c h =
    omega (arith, length-append x (nodes_of bs), length-append c (nodes_of bs))
length-nodes_of-set (x ∷ bs) (suc i) c h = omega (
  arith,
  length-append x (nodes_of bs),
  length-append x (nodes_of (set bs i c)),
  length-nodes_of-set bs i c (omega arith),
)

count-nodes_of_nowhere :
    (j : ℕ) (bs : List Chain) → ((i : ℕ) → count j (get_or bs i []) ≡ 0) → count j (nodes_of bs) ≡ 0
unfolding nodes_of count
count-nodes_of_nowhere j [] h = refl
count-nodes_of_nowhere j (c ∷ bs) h =
    omega (arith, count-append j c (nodes_of bs), h 0, count-nodes_of_nowhere j bs (λ i. h (suc i)))

-- A key that stands in one bucket at most is found among all nodes as in that bucket.
pub nodes_of-only :
    (j : ℕ) (bs : List Chain) (b : ℕ)
    → ((i : ℕ) → i ≢ b → count j (get_or bs i []) ≡ 0)
    → (find j (nodes_of bs) ≡ find j (get_or bs b []))
      × (count j (nodes_of bs) ≡ count j (get_or bs b []))
unfolding nodes_of or_else
nodes_of-only j [] b h = (refl, refl)
nodes_of-only j (c ∷ bs) zero h =
    let none_there = count-nodes_of_nowhere j bs (λ i. h (suc i) (omega arith)) in
    (
      ground (
        arith,
        find-append j c (nodes_of bs),
        or_else-none (find j c),
        find-eq-none j (nodes_of bs),
      ),
      omega (arith, count-append j c (nodes_of bs), none_there),
    )
nodes_of-only j (c ∷ bs) (suc b) h =
    let rest = nodes_of-only j bs b (λ i n. h (suc i) (omega arith)) in
    let none_here = h 0 (omega arith) in
    (
      rw (find-append j c (nodes_of bs), find-eq-none j c none_here, or_else) rest.0,
      omega (arith, count-append j c (nodes_of bs), none_here, rest.1),
    )
