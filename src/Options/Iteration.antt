-- ===== src/Options/Iteration.antt =====
-- The iterator stays inside the options, and a loop over it ends.
use qo_smos.Prelude.{
  ℕ, zero, suc, ◌+◌, ◌≤◌, ◌<◌, ◌≡◌, ◌⊎◌, inl, inr, refl, List, none, some, arith, leb, ◌==◌, length,
  get_elem?, get_elem?-lt, Option-cases, Bool-cases, not, ◌&&◌, ltb,
}
use qo_smos.Options.{
  Next, next, finished, overread, failed, Measured, measured, unread, wrong, Found, found,
  not_found, lost, stuck, TsFields, get_expected_tcp_option_length, get_tcp_option_length,
  get_current_option, advance, tcp_options_next, note_timestamp, find_loop, find_tcp_timestamp,
}

-- What one step of the iterator gives at an option of the given kind: an option further on in the
-- block, the end, or an error, and never a read outside the buffer; and a timestamp that it passes
-- has its 10 bytes in the block.
abbrev pub Advances : ℕ → ℕ → ℕ → Next → Type 0
Advances kind current options_end (next n) =
    (current < n) × (n < options_end) × (kind ≡ 8 → current + 10 ≤ options_end)
Advances kind current options_end finished = kind ≡ 8 → current + 10 ≤ options_end
Advances kind current options_end (failed e) = Unit {0}
Advances kind current options_end overread = ⊥

current_option-Advances :
    (kind options_end current n : ℕ)
    → current < n
    → (kind ≡ 8 → current + 10 ≤ options_end)
    → Advances kind current options_end (get_current_option options_end n)
unfolding get_current_option
current_option-Advances kind options_end current n h room = elim (Bool-cases (leb options_end n)) [
  | inl e ↦ rw (e, get_current_option) room
  | inr e ↦ rw (e, get_current_option) (h, ground arith, room)
]

-- What `get_tcp_option_length` gives on a block that is in the buffer.
abbrev IsMeasured : ℕ → ℕ → ℕ → Measured → Type 0
IsMeasured option options_end expected (measured n) =
    (2 ≤ n) × (option + n ≤ options_end) × ((expected ≡ 0) ⊎ (n ≡ expected))
IsMeasured option options_end expected (wrong e) = Unit {0}
IsMeasured option options_end expected unread = ⊥

timestamp_length :
    (kind expected : ℕ)
    → get_expected_tcp_option_length kind ≡ some expected
    → kind ≡ 8
    → expected ≡ 10
unfolding get_expected_tcp_option_length
timestamp_length kind expected e h = ground arith

advance-Advances :
    (kind option options_end expected : ℕ) (m : Measured)
    → (kind ≡ 8 → expected ≡ 10)
    → IsMeasured option options_end expected m
    → Advances kind option options_end (advance options_end option m)
unfolding advance
advance-Advances kind option options_end expected (measured n) ten (two, room, eq) =
    current_option-Advances kind options_end option (option + n) (omega arith)
      (λ h. ground (arith, ten h, eq))
advance-Advances kind option options_end expected (wrong e) ten h = tt
advance-Advances kind option options_end expected unread ten h = absurd h

module _ (buffer : List ℕ) (options_end : ℕ) (fits : options_end ≤ length buffer) where
  length-IsMeasured :
      (option expected : ℕ)
      → IsMeasured option options_end expected
          (get_tcp_option_length buffer option options_end expected)
  unfolding get_tcp_option_length
  length-IsMeasured option expected = elim (Bool-cases (leb options_end (option + 1))) [
    | inl e ↦ rw (e, get_tcp_option_length) tt
    | inr e ↦
        let (n, at) = get_elem?-lt buffer (option + 1) (ground arith) in
        rw (e, at, get_tcp_option_length)
          (elim (Bool-cases (ltb n 2)) [
            | inl short ↦ rw short tt
            | inr long ↦ rw long (elim (Bool-cases (ltb options_end (option + n))) [
              | inl far ↦ rw far tt
              | inr near ↦ rw near (elim (Bool-cases (not (expected == 0) && not (n == expected))) [
                | inl bad ↦ rw bad tt
                | inr good ↦ rw good (ground arith, ground arith, ground arith)
              ])
            ])
          ])
  ]

  next-Advances :
      (option : ℕ)
      → option < options_end
      → (kind : ℕ) × (get_elem? buffer option ≡ some kind)
        × Advances kind option options_end (tcp_options_next buffer options_end option)
  unfolding tcp_options_next
  next-Advances option inside =
      let (kind, at) = get_elem?-lt buffer option (omega arith) in
      (
        kind,
        at,
        rw (at, tcp_options_next)
            (elim (Option-cases (get_expected_tcp_option_length kind)) [
              | inl unknown ↦ rw unknown tt
              | inr (expected, e) ↦ rw e (elim (Bool-cases (expected == 1)) [
                | inl one ↦ rw one (
                    current_option-Advances kind options_end option (option + 1) (omega arith)
                      (λ h. absurd (ground (arith, timestamp_length kind expected e h))))
                | inr more ↦ rw more (
                    advance-Advances kind option options_end expected _
                      (timestamp_length kind expected e) (length-IsMeasured option expected))
              ])
            ]),
      )

-- Where `find_tcp_timestamp` points: at the value and the echo reply of a timestamp option whose 10
-- bytes are in the block. It neither reads outside the buffer nor loops on.
abbrev pub IsLocated : List ℕ → ℕ → TsFields → Type 0
IsLocated buffer options_end none = Unit {0}
IsLocated buffer options_end (some (val, ecr)) =
    (option : ℕ) × (get_elem? buffer option ≡ some 8)
    × (option + 10 ≤ options_end)
    × (val ≡ option + 2)
    × (ecr ≡ option + 6)

abbrev pub IsFound : List ℕ → ℕ → Found → Type 0
IsFound buffer options_end (found fields) = IsLocated buffer options_end fields
IsFound buffer options_end (not_found e) = Unit {0}
IsFound buffer options_end lost = ⊥
IsFound buffer options_end stuck = ⊥

note-IsLocated :
    (buffer : List ℕ) (options_end option kind : ℕ) (fields : TsFields)
    → get_elem? buffer option ≡ some kind
    → IsLocated buffer options_end fields
    → (kind ≡ 8 → option + 10 ≤ options_end)
    → IsLocated buffer options_end (note_timestamp buffer option fields)
note-IsLocated buffer options_end option kind fields at before room =
    elim (Bool-cases (kind == 8)) [
      | inl e ↦
          rw (note_timestamp, at, e) (option, ground (arith, at), room (ground arith), refl, refl)
      | inr e ↦ rw (note_timestamp, at, e) before
    ]

module _ (buffer : List ℕ) (options_end : ℕ) (fits : options_end ≤ length buffer) where
  -- One round of the loop, on what the rounds behind it give.
  loop_step :
      (fuel option kind : ℕ) (fields : TsFields) (n : Next)
      → ((o : ℕ) (f : TsFields)
          → option < o
          → o < options_end
          → IsLocated buffer options_end f
          → IsFound buffer options_end (find_loop buffer options_end fuel f (next o)))
      → get_elem? buffer option ≡ some kind
      → IsLocated buffer options_end fields
      → Advances kind option options_end n
      → IsFound buffer options_end
          (find_loop buffer options_end fuel (note_timestamp buffer option fields) n)
  unfolding find_loop
  loop_step fuel option kind fields (next o) rest at before (further, inner, room) =
      rest o (note_timestamp buffer option fields) further inner
        (note-IsLocated buffer options_end option kind fields at before room)
  loop_step fuel option kind fields finished rest at before room =
      note-IsLocated buffer options_end option kind fields at before room
  loop_step fuel option kind fields (failed e) rest at before h = tt
  loop_step fuel option kind fields overread rest at before h = absurd h

  find_loop-IsFound :
      (fuel option : ℕ) (fields : TsFields)
      → options_end < fuel + option
      → option < options_end
      → IsLocated buffer options_end fields
      → IsFound buffer options_end (find_loop buffer options_end fuel fields (next option))
  unfolding find_loop
  find_loop-IsFound zero option fields enough inside before = absurd (omega arith)
  find_loop-IsFound (suc fuel) option fields enough inside before =
      let (kind, at, step) = next-Advances buffer options_end fits option inside in
      loop_step fuel option kind fields (tcp_options_next buffer options_end option)
        (λ o f further inner located. find_loop-IsFound fuel o f (omega arith) inner located) at
        before step

  -- If the options lie in the buffer, then `find_tcp_timestamp` ends without reading outside it, and
  -- on success the places it gives are the two fields of a timestamp option inside the options.
  pub find_tcp_timestamp-IsFound :
      (options_start : ℕ)
      → IsFound buffer options_end (find_tcp_timestamp buffer options_start options_end)
  unfolding find_tcp_timestamp find_loop get_current_option
  find_tcp_timestamp-IsFound options_start = elim (Bool-cases (leb options_end options_start)) [
    | inl e ↦ rw e tt
    | inr e ↦
        rw e
          (find_loop-IsFound (suc options_end) options_start none (omega arith) (ground arith) tt)
  ]
