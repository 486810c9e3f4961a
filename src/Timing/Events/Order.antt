-- ===== src/Timing/Events/Order.antt =====
-- The loop over events runs every event of a well-ordered script once, in order, and stops at the first bad one.
use qo_smos.Prelude.{
  ℕ, suc, ◌+◌, ◌≡◌, refl, List, [], ◌∷◌, ◌++◌, Option, none, some, map, if◌then◌else◌, length,
  arith, append_nil, append_assoc, Bool-cases, inl, inr, sym, ap, ◌∙◌,
}
use mathlib.Core.Path.{transport}
use qo_smos.Prelude.Int.{ℤ, is_zero_ℤ}
use qo_smos.Timing.{EventType, Event, State, is_event_time_absolute, adjust_relative_event_times}
use qo_smos.Timing.Events.{
  Refusal, no_first_event, first_event_not_at_zero, time_goes_backward, is_backward, Handlers,
  Outcome, finished, bad_script, handler, run_event, run_events, run_script, state_new,
  get_next_event, adjusted, after_event,
}

-- The first event whose absolute time lies before that of the event before it, also absolute.
unfoldable pub backward_event : Event → List Event → Option Refusal
backward_event last [] = none
backward_event last (event ∷ rest) =
    if is_backward last.time_usecs last event
    then some (time_goes_backward event.line_number)
    else backward_event event rest

-- What is wrong with a script's times.
unfoldable pub script_refusal : List Event → Option Refusal
unfolding backward_event
script_refusal [] = some no_first_event
script_refusal (event ∷ rest) =
    if is_zero_ℤ event.time_usecs
    then backward_event event rest
    else some (first_event_not_at_zero event.line_number)

-- Only absolute times are compared, and these are not adjusted.
is_backward_adjusted :
    (state : State) (now : ℤ) (last event : Event)
    → is_backward
        (adjust_relative_event_times state now last).time_usecs
        (adjust_relative_event_times state now last)
        event
      ≡ is_backward last.time_usecs last event
unfolding adjust_relative_event_times is_event_time_absolute is_backward
is_backward_adjusted state now last event = ground arith

backward_event_adjusted :
    (state : State) (now : ℤ) (event : Event) (rest : List Event)
    → backward_event (adjust_relative_event_times state now event) rest ≡ backward_event event rest
unfolding backward_event
backward_event_adjusted state now event [] = refl
backward_event_adjusted state now event (next ∷ rest) =
    rw (is_backward_adjusted state now event next) refl

-- How the loop ends on a script: after every event, with the lines of all of them in the trace, or with the script's refusal.
pub data Ends {W : Type 0} (trace : W → List ℕ) (lines : List ℕ) (count : ℕ)
    : Option Refusal → Outcome W → Type 0 where
  all_run :
      (state : State) (w : W)
      → trace w ≡ lines
      → state.num_events ≡ count
      → Ends trace lines count none (finished state w)
  stopped : (r : Refusal) → Ends trace lines count (some r) (bad_script r)

abbrev lines_of : List Event → List ℕ
lines_of = map (λ event. event.line_number)

-- Each handler returns, and adds the line of its event to the trace.
abbrev pub Logs : {W : Type 0} → Handlers W → (W → List ℕ) → Type 0
Logs {W} h trace =
    (type : EventType) (state : State) (event : Event) (w : W)
    → (w' : W) × (handler h type state event w ≡ some w')
      × (trace w' ≡ trace w ++ (event.line_number ∷ []))

adjust-line_number :
    (state : State) (now : ℤ) (event : Event)
    → (adjust_relative_event_times state now event).line_number ≡ event.line_number
unfolding adjust_relative_event_times
adjust-line_number state now event = ground arith

Ends-along :
    {W : Type 0} {trace : W → List ℕ} {lines lines' : List ℕ} {count count' : ℕ}
    {r r' : Option Refusal} {outcome : Outcome W}
    → lines ≡ lines'
    → count ≡ count'
    → r ≡ r'
    → Ends trace lines count r outcome
    → Ends trace lines' count' r' outcome
Ends-along {trace = trace} {outcome = outcome} p q s =
    transport (λ i. Ends trace (p i) (q i) (s i) outcome)

counted : (n : ℕ) (rest : List Event) → n + 1 + length rest ≡ n + suc (length rest)
counted n rest = omega arith

none_yet : (n : ℕ) → 0 + n ≡ n
none_yet n = omega arith

module _ {W : Type 0} (h : Handlers W) (trace : W → List ℕ) (logs : Logs h trace) where
  run_event_lem :
      (state : State) (event : Event) (w : W)
      → (w' : W) × (run_event h state event w
          ≡ some (record (adjusted h state event w) { num_events = state.num_events + 1 }, w'))
        × (trace w' ≡ trace w ++ (event.line_number ∷ []))
  unfolding run_event
  run_event_lem state event w =
      let moved = adjust_relative_event_times state (h.now_usecs w) event in
      let (w', eq, log) = logs moved.type (adjusted h state event w) moved w in
      (
        w',
        rw (eq, run_event) refl,
        log ∙ ap (λ n. trace w ++ (n ∷ [])) (adjust-line_number state (h.now_usecs w) event),
      )

  -- The loop on `rest`, from any state in which `last` is the current event.
  abbrev Follows : List Event → Type 0
  Follows rest =
      (last : Event) (state : State) (w : W)
      → Ends trace (trace w ++ lines_of rest) (state.num_events + length rest)
          (backward_event last rest)
          (run_events h (suc (length rest)) (record state { event = some last; next = rest }) w)

  from_event :
      (rest : List Event) (event : Event) (state : State) (w : W)
      → Follows rest
      → Ends trace
          (trace w ++ lines_of (event ∷ rest))
          (state.num_events + suc (length rest))
          (backward_event event rest)
          (after_event h
            (run_events h (suc (length rest)))
            (run_event h (record state { event = some event; next = rest }) event w))
  unfolding adjusted after_event
  from_event rest event state w follows =
      let s = record state { event = some event; next = rest } in
      let moved = adjust_relative_event_times s (h.now_usecs w) event in
      let (w', eq, log) = run_event_lem s event w in
      let tail = follows moved (record state { num_events = state.num_events + 1 }) w' in
      let lines = ap (λ l. l ++ lines_of rest) log ∙ sym (append_assoc (trace w) _ _) in
      let refusal = backward_event_adjusted s (h.now_usecs w) event rest in
      let count = counted state.num_events rest in rw eq (Ends-along lines count refusal tail)

  following : (rest : List Event) → Follows rest
  unfolding run_events get_next_event backward_event
  following [] last state w = all_run _ w (sym (append_nil _)) (omega arith)
  following (event ∷ rest) last state w =
      elim (Bool-cases (is_backward last.time_usecs last event)) [
        | inl bad ↦ rw (bad, run_events, get_next_event) (stopped _)
        | inr good ↦
            rw (good, run_events, get_next_event)
              (from_event rest event
                (record state { script_last_time_usecs = last.time_usecs; last_event = some last })
                w (following rest))
      ]

-- Where each handler returns and logs its event's line, the loop of `run_script` ends: on a script whose first event is at time 0 and whose consecutive absolute times do not decrease, after every event has been handled once and in the script's order, and else with the error of the first bad event.
pub run_script-Ends :
    {W : Type 0} (h : Handlers W) (trace : W → List ℕ)
    → Logs h trace
    → (tolerance : ℤ) (script : List Event) (start : ℤ) (w : W)
    → Ends trace
        (trace w ++ map (λ event. event.line_number) script)
        (length script)
        (script_refusal script)
        (run_script h tolerance script start w)
unfolding run_script run_events get_next_event state_new script_refusal
run_script-Ends h trace logs tolerance [] start w = stopped no_first_event
run_script-Ends h trace logs tolerance (event ∷ rest) start w =
    elim (Bool-cases (is_zero_ℤ event.time_usecs)) [
      | inr late ↦ rw (late, run_script, run_events, get_next_event, state_new) (stopped _)
      | inl at_zero ↦
          rw (at_zero, run_script, run_events, get_next_event, state_new)
            (Ends-along refl (none_yet (suc (length rest))) refl (
              from_event h trace logs rest event
                (record (state_new tolerance (event ∷ rest)) {
                  live_start_time_usecs = start;
                  script_start_time_usecs = event.time_usecs;
                })
                w (following h trace logs rest)))
    ]
