-- ===== src/Descriptors/Table.antt =====
-- The list of descriptors as a map from the script's numbers to live ones.
use qo_smos.Prelude.{
  ◌≡◌, ◌≢◌, refl, true, false, List, [], ◌∷◌, Option, none, some, if◌then◌else◌, Bool-cases, ◌⊎◌,
  inl, inr, arith,
}
use qo_smos.Prelude.Int.{ℤ, pos, ltb_ℤ, eq_ℤ, eq_ℤ-eq, eq_ℤ_refl, minus_one, ◌≤ℤ◌}
use qo_smos.Script.Outcomes.{
  Fallible, ok, err, abort, ◌>>=◌, unable_to_find_fd, duplicate_fd, duplicate_live_fd,
}
use qo_smos.Descriptors.{
  FdType, FdState, Fds, new_fd, new_socket, mark_closed, is_open_script_fd, is_open_live_fd,
  find_by_script_fd, find_by_live_fd, to_live_fd, check_duplicate_fd, run_syscall_new,
  run_syscall_socket, run_syscall_close, update_fd, state_add_fd,
}

-- The open descriptor with the script's number, or with the live one, without the assert of the search.
unfoldable pub found : ℤ → List FdState → Option FdState
found k [] = none
found k (fd ∷ fds) = if is_open_script_fd k fd then some fd else found k fds

unfoldable pub found_live : ℤ → List FdState → Option FdState
found_live l [] = none
found_live l (fd ∷ fds) = if is_open_live_fd l fd then some fd else found_live l fds

-- A descriptor is closed, or that of a socket that waits for accept(), or open with two numbers that no
-- older open one has.
abbrev pub IsEntry : FdState → List FdState → Type 0
IsEntry fd fds =
    (fd.is_closed ≡ true)
    ⊎ ((fd.script_fd ≡ minus_one) × (fd.live_fd ≡ minus_one))
    ⊎ ((pos 0 ≤ℤ fd.script_fd)
        × (pos 0 ≤ℤ fd.live_fd)
        × (found fd.script_fd fds ≡ none)
        × (found_live fd.live_fd fds ≡ none))

abbrev pub IsTable : List FdState → Type 0
IsTable [] = Unit
IsTable (fd ∷ fds) = IsEntry fd fds × IsTable fds

pub find_by_script_fd-found :
    (k : ℤ) (fds : List FdState)
    → IsTable fds
    → pos 0 ≤ℤ k
    → find_by_script_fd fds k ≡ ok (found k fds)
unfolding find_by_script_fd found
find_by_script_fd-found k [] t h = refl
find_by_script_fd-found k (fd ∷ fds) (entry, t) h = ground (arith, find_by_script_fd-found k fds)

pub find_by_live_fd-found :
    (l : ℤ) (fds : List FdState)
    → IsTable fds
    → pos 0 ≤ℤ l
    → find_by_live_fd fds l ≡ ok (found_live l fds)
unfolding find_by_live_fd found_live
find_by_live_fd-found l [] t h = refl
find_by_live_fd-found l (fd ∷ fds) (entry, t) h = ground (arith, find_by_live_fd-found l fds)

-- The map from the script's numbers to live ones.
unfoldable pub live_of : ℤ → List FdState → Option ℤ
live_of k fds = elim (found k fds) [ none ↦ none | some fd ↦ some fd.live_fd ]

pub to_live_fd-live_of :
    (state : Fds) (k : ℤ)
    → IsTable state.fds
    → pos 0 ≤ℤ k
    → to_live_fd state k
      ≡ (elim (live_of k state.fds) [ none ↦ err unable_to_find_fd | some l ↦ ok l ])
unfolding to_live_fd live_of
to_live_fd-live_of state k t h = ground (arith, find_by_script_fd-found k state.fds)

-- What opening a descriptor does: it adds a pair of numbers to the map, if both are free.
abbrev pub IsOpened : List FdState → ℤ → ℤ → Fallible Fds → Type 0
IsOpened fds s l (ok state) =
    (live_of s fds ≡ none)
    × (found_live l fds ≡ none)
    × IsTable state.fds
    × ((j : ℤ) → live_of j state.fds ≡ (if eq_ℤ s j then some l else live_of j fds))
IsOpened fds s l (err e) =
    ((e ≡ duplicate_fd) × (live_of s fds ≢ none))
    ⊎ ((e ≡ duplicate_live_fd) × (found_live l fds ≢ none))
IsOpened fds s l abort = ⊥

added-live_of :
    (fd : FdState) (fds : List FdState) (j : ℤ)
    → fd.is_closed ≡ false
    → live_of j (fd ∷ fds) ≡ (if eq_ℤ fd.script_fd j then some fd.live_fd else live_of j fds)
unfolding live_of found
added-live_of fd fds j h = ground arith

module _ (state : Fds) (s l : ℤ) (t : IsTable state.fds) (hs : pos 0 ≤ℤ s) (hl : pos 0 ≤ℤ l) where
  check_duplicate_fd-found : check_duplicate_fd state s l ≡ (elim (found s state.fds) [
    | some fd ↦ err duplicate_fd
    | none ↦ elim (found_live l state.fds) [ some fd ↦ err duplicate_live_fd | none ↦ ok tt ]
  ])
  unfolding check_duplicate_fd
  check_duplicate_fd-found =
      ground (arith, find_by_script_fd-found s state.fds, find_by_live_fd-found l state.fds)

  -- What follows the check when the new descriptor has the two numbers.
  outcome :
      (fd : FdState) (added : Fds) (by_script by_live : Option FdState)
      → added.fds ≡ fd ∷ state.fds
      → fd.script_fd ≡ s
      → fd.live_fd ≡ l
      → fd.is_closed ≡ false
      → found s state.fds ≡ by_script
      → found_live l state.fds ≡ by_live
      → IsOpened state.fds s l (
          (elim by_script as (λ o. Fallible (Unit {0})) [
            | some fd ↦ err duplicate_fd
            | none ↦ elim by_live as (λ o. Fallible (Unit {0})) [
              | some fd ↦ err duplicate_live_fd
              | none ↦ ok tt
            ]
          ])
          >>= λ free. ok added)
  unfolding live_of
  outcome fd added (some old) by_live h hs' hl' is_open p q = inl (refl, ground arith)
  outcome fd added none (some old) h hs' hl' is_open p q = inr (refl, ground arith)
  outcome fd added none none h hs' hl' is_open p q = (
    ground arith,
    q,
    rw h (inr (inr (ground arith, ground arith, ground arith, ground arith)), t),
    λ j. rw h (ground (arith, added-live_of fd state.fds j)),
  )

  after_check :
      (fd : FdState) (added : Fds)
      → added.fds ≡ fd ∷ state.fds
      → fd.script_fd ≡ s
      → fd.live_fd ≡ l
      → fd.is_closed ≡ false
      → IsOpened state.fds s l (check_duplicate_fd state s l >>= λ free. ok added)
  after_check fd added h hs' hl' is_open =
      rw check_duplicate_fd-found
        (outcome fd added (found s state.fds) (found_live l state.fds) h hs' hl' is_open refl refl)

  -- Opening a file or an epoll descriptor adds its numbers to the map exactly when both are free; otherwise the error tells which is not.
  pub run_syscall_new-IsOpened :
      (type : FdType) → IsOpened state.fds s l (run_syscall_new type state s l)
  unfolding run_syscall_new state_add_fd
  run_syscall_new-IsOpened type =
      let fd = new_fd type s l new_socket in
      after_check fd (state_add_fd state fd) refl refl refl refl

  not_negative : (k : ℤ) → pos 0 ≤ℤ k → ltb_ℤ k (pos 0) ≡ false
  not_negative k h = ground arith

  -- A new socket adds its numbers to the map in the same way, and becomes the socket under test.
  pub run_syscall_socket-IsOpened :
      (family type protocol : ℤ)
      → IsOpened state.fds s l (run_syscall_socket state family type protocol s l)
  unfolding run_syscall_socket state_add_fd
  run_syscall_socket-IsOpened family type protocol =
      rw (not_negative s hs, not_negative l hl) (after_check _ _ refl refl refl refl)

-- What closing does: it takes the pair of numbers from the map, and no other.
abbrev pub IsClosed : List FdState → ℤ → ℤ → Fallible Fds → Type 0
IsClosed fds s l (ok state) =
    (live_of s fds ≡ some l)
    × IsTable state.fds
    × ((j : ℤ) → live_of j state.fds ≡ (if eq_ℤ s j then none else live_of j fds))
IsClosed fds s l (err e) = live_of s fds ≢ some l
IsClosed fds s l abort = ⊥

-- An update does not bring a number into use.
update_closed-found :
    (s k : ℤ) (fds : List FdState)
    → found k fds ≡ none
    → found k (update_fd mark_closed s fds) ≡ none
unfolding found update_fd
update_closed-found s k [] h = refl
update_closed-found s k (fd ∷ fds) h = ground (arith, update_closed-found s k fds)

update_closed-found_live :
    (s l : ℤ) (fds : List FdState)
    → found_live l fds ≡ none
    → found_live l (update_fd mark_closed s fds) ≡ none
unfolding found_live update_fd
update_closed-found_live s l [] h = refl
update_closed-found_live s l (fd ∷ fds) h = ground (arith, update_closed-found_live s l fds)

update_closed-IsEntry :
    (s : ℤ) (fd : FdState) (fds : List FdState)
    → IsEntry fd fds
    → IsEntry fd (update_fd mark_closed s fds)
update_closed-IsEntry s fd fds (inl h) = inl h
update_closed-IsEntry s fd fds (inr (inl h)) = inr (inl h)
update_closed-IsEntry s fd fds (inr (inr (a, b, c, d))) = inr (
    inr
      (a, b, update_closed-found s fd.script_fd fds c, update_closed-found_live s fd.live_fd fds d))

update_closed-IsTable :
    (s : ℤ) (fds : List FdState) → IsTable fds → IsTable (update_fd mark_closed s fds)
unfolding update_fd
update_closed-IsTable s [] t = tt
update_closed-IsTable s (fd ∷ fds) (entry, t) = elim (Bool-cases (is_open_script_fd s fd)) [
  | inl this ↦ rw this (inl refl, t)
  | inr other ↦ rw other (update_closed-IsEntry s fd fds entry, update_closed-IsTable s fds t)
]

-- An open descriptor with the script's number is the only one.
only_one :
    (s : ℤ) (fd : FdState) (fds : List FdState)
    → IsEntry fd fds
    → pos 0 ≤ℤ s
    → is_open_script_fd s fd ≡ true
    → found s fds ≡ none
only_one s fd fds entry h this = ground (arith, eq_ℤ-eq fd.script_fd s)

update_closed-live_of :
    (s j : ℤ) (fds : List FdState)
    → IsTable fds
    → pos 0 ≤ℤ s
    → live_of j (update_fd mark_closed s fds) ≡ (if eq_ℤ s j then none else live_of j fds)
unfolding update_fd live_of found
update_closed-live_of s j [] t h = ground arith
update_closed-live_of s j (fd ∷ fds) (entry, t) h =
    ground (arith, only_one s fd fds entry h, eq_ℤ-eq s j, update_closed-live_of s j fds t h)

outcome_of_closing :
    (state : Fds) (s l : ℤ) (by_script : Option FdState)
    → IsTable state.fds
    → pos 0 ≤ℤ s
    → found s state.fds ≡ by_script
    → IsClosed state.fds s l (elim by_script as (λ o. Fallible Fds) [
      | none ↦ err unable_to_find_fd
      | some fd ↦
          if eq_ℤ fd.live_fd l
          then ok (record state { fds = update_fd mark_closed s state.fds })
          else err unable_to_find_fd
    ])
unfolding live_of
outcome_of_closing state s l none t h p = ground arith
outcome_of_closing state s l (some fd) t h p = elim (Bool-cases (eq_ℤ fd.live_fd l)) [
  | inl same ↦ rw same (
    ground (arith, eq_ℤ-eq fd.live_fd l),
    update_closed-IsTable s state.fds t,
    λ j. update_closed-live_of s j state.fds t h,
  )
  | inr other ↦ rw other (ground (arith, eq_ℤ_refl l))
]

-- Closing succeeds exactly when the two numbers belong together, and takes this pair and no other from the map.
pub run_syscall_close-IsClosed :
    (state : Fds) (s l : ℤ)
    → IsTable state.fds
    → pos 0 ≤ℤ s
    → IsClosed state.fds s l (run_syscall_close state s l)
unfolding run_syscall_close
run_syscall_close-IsClosed state s l t h =
    rw (find_by_script_fd-found s state.fds t h)
      (outcome_of_closing state s l (found s state.fds) t h refl)

live_of-found_live :
    (j l : ℤ) (fds : List FdState) → live_of j fds ≡ some l → found_live l fds ≢ none
unfolding live_of found found_live
live_of-found_live j l [] p = cc
live_of-found_live j l (fd ∷ fds) p = ground (arith, eq_ℤ_refl l, live_of-found_live j l fds)

-- Two different numbers of the script are never the same live descriptor.
pub live_of-injective :
    (i j l : ℤ) (fds : List FdState)
    → IsTable fds
    → pos 0 ≤ℤ i
    → pos 0 ≤ℤ j
    → live_of i fds ≡ some l
    → live_of j fds ≡ some l
    → i ≡ j
unfolding live_of found
live_of-injective i j l [] t hi hj p q = cc
live_of-injective i j l (fd ∷ fds) (entry, t) hi hj p q = ground (
  arith,
  eq_ℤ-eq fd.script_fd i,
  eq_ℤ-eq fd.script_fd j,
  live_of-found_live i l fds,
  live_of-found_live j l fds,
  live_of-injective i j l fds,
)
