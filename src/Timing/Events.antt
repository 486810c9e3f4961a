-- ===== src/Timing/Events.antt =====
-- The loop over a script's events in local mode: `get_next_event` and `run_script` of
-- app/src/main/cpp/run.c. The handlers of the events are parameters on a state of the world.
pub mod Order
use qo_smos.Prelude.{
  ℕ, zero, suc, ◌+◌, Bool, true, false, ◌&&◌, List, [], ◌∷◌, Option, none, some, if◌then◌else◌,
  length,
}
use qo_smos.Prelude.Int.{ℤ, pos, ltb_ℤ, is_zero_ℤ}
use qo_smos.Timing.{
  EventType, packet_event, syscall_event, command_event, code_event, Event, State,
  is_event_time_absolute, adjust_relative_event_times,
}

-- The errors, with the event's line; `no_first_event` is the null pointer that an empty script leaves.
pub data Refusal : Type 0 where
  no_first_event : Refusal
  first_event_not_at_zero time_goes_backward : ℕ → Refusal

pub data Advance : Type 0 where
  advanced : State → Advance
  refused : Refusal → Advance

unfoldable pub is_backward : ℤ → Event → Event → Bool
unfolding is_event_time_absolute
is_backward last_time last event =
    is_event_time_absolute last
    && (is_event_time_absolute event && ltb_ℤ event.time_usecs last_time)

abbrev is_backward_from : ℤ → Option Event → Event → Bool
is_backward_from last_time none event = false
is_backward_from last_time (some last) event = is_backward last_time last event

abbrev check_backward : State → Event → Advance
check_backward state event =
    if is_backward_from state.script_last_time_usecs state.last_event event
    then refused (time_goes_backward event.line_number)
    else advanced state

abbrev first_event : State → List Event → Advance
first_event state [] = refused no_first_event
first_event state (event ∷ rest) =
    if is_zero_ℤ event.time_usecs
    then check_backward
        (record state {
          event = some event;
          next = rest;
          script_start_time_usecs = event.time_usecs;
        })
        event
    else refused (first_event_not_at_zero event.line_number)

abbrev following_event : State → List Event → Advance
following_event state [] = advanced (record state { event = none })
following_event state (event ∷ rest) =
    check_backward (record state { event = some event; next = rest }) event

unfoldable pub get_next_event : State → Advance
get_next_event state = elim state.event [
  | none ↦ first_event state state.event_list
  | some last ↦
      following_event
        (record state { script_last_time_usecs = last.time_usecs; last_event = some last })
        state.next
]

-- A handler's `none` is an exit of the program.
pub record Handlers (W : Type 0) : Type 0 where
  pub now_usecs : W → ℤ
  pub run_packet_event : State → Event → W → Option W
  pub run_system_call_event : State → Event → W → Option W
  pub run_command_event : State → Event → W → Option W
  pub run_code_event : State → Event → W → Option W

pub data Outcome (W : Type 0) : Type 0 where
  finished : State → W → Outcome W
  bad_script : Refusal → Outcome W
  died unfinished : Outcome W

module _ {W : Type 0} (h : Handlers W) where
  unfoldable pub handler : EventType → State → Event → W → Option W
  handler packet_event = h.run_packet_event
  handler syscall_event = h.run_system_call_event
  handler command_event = h.run_command_event
  handler code_event = h.run_code_event

  -- The state in which an event's handler runs, with the event's times adjusted.
  unfoldable pub adjusted : State → Event → W → State
  adjusted state event w = record state {
    event = some (adjust_relative_event_times state (h.now_usecs w) event);
  }

  unfoldable pub run_event : State → Event → W → Option (State × W)
  unfolding adjusted handler
  run_event state event w =
      let moved = adjust_relative_event_times state (h.now_usecs w) event in
      elim (handler moved.type (adjusted state event w) moved w) [
        | none ↦ none
        | some w' ↦ some (record (adjusted state event w) { num_events = state.num_events + 1 }, w')
      ]

  -- After an event the loop goes on unless the event's handler has died.
  unfoldable pub after_event : (State → W → Outcome W) → Option (State × W) → Outcome W
  after_event loop none = died
  after_event loop (some (state, w)) = loop state w

  -- The loop, on fuel.
  unfoldable pub run_events : ℕ → State → W → Outcome W
  unfolding after_event
  run_events zero state w = unfinished
  run_events (suc fuel) state w = elim (get_next_event state) [
    | refused r ↦ bad_script r
    | advanced s ↦ elim s.event [
      | none ↦ finished s w
      | some event ↦ after_event (run_events fuel) (run_event s event w)
    ]
  ]

-- `calloc`, and the script and configuration of the test.
unfoldable pub state_new : ℤ → List Event → State
state_new tolerance script = record {
  tolerance_usecs = tolerance;
  script_start_time_usecs = pos 0;
  script_last_time_usecs = pos 0;
  live_start_time_usecs = pos 0;
  event = none;
  last_event = none;
  next = [];
  event_list = script;
  num_events = 0;
}

-- `start` is the scheduled start time. The loop has fuel for each event and for the end of the list.
unfoldable pub run_script : {W : Type 0} → Handlers W → ℤ → List Event → ℤ → W → Outcome W
unfolding state_new run_events
run_script h tolerance script start w =
    run_events h (suc (length script))
      (record (state_new tolerance script) { live_start_time_usecs = start }) w
