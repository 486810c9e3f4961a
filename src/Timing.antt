-- ===== src/Timing.antt =====
-- The times of events in app/src/main/cpp/run.c, run.h and script.h. A blocking system call's end is
-- the event's `end_usecs`; a packet's direction is `inbound`.
pub mod Exact
pub mod Events
pub mod Waiting
pub mod Adjusting
use qo_smos.Prelude.{ℕ, Bool, true, false, ◌||◌, ◌&&◌, not, List, Option, none, some, if◌then◌else◌}
use qo_smos.Prelude.Int.{ℤ, pos, negsuc, ◌+ℤ◌, ◌-ℤ◌, ltb_ℤ, is_zero_ℤ}

-- `enum event_time_t`
pub data TimeType : Type 0 where
  absolute_time relative_time any_time absolute_range_time relative_range_time : TimeType

-- `enum event_t`, without its two bounds
pub data EventType : Type 0 where
  packet_event syscall_event command_event code_event : EventType

pub record Event : Type 0 where
  pub line_number : ℕ
  pub time_usecs : ℤ
  pub time_usecs_end : ℤ
  pub offset_usecs : ℤ
  pub time_type : TimeType
  pub type : EventType
  pub inbound : Bool
  pub end_usecs : ℤ

-- The fields of `struct state` on times and events, with the tolerance of its configuration. `next` is the list after `event`.
pub record State : Type 0 where
  pub tolerance_usecs : ℤ
  pub script_start_time_usecs : ℤ
  pub script_last_time_usecs : ℤ
  pub live_start_time_usecs : ℤ
  pub event : Option Event
  pub last_event : Option Event
  pub next : List Event
  pub event_list : List Event
  pub num_events : ℕ

-- STATUS_OK, or the three messages on a wrong time.
pub data TimeVerdict : Type 0 where
  in_time outside_range outside_relative_range outside_tolerance : TimeVerdict

unfoldable pub script_time_to_live_time_usecs : State → ℤ → ℤ
script_time_to_live_time_usecs state script_time_usecs =
    let offset_usecs = script_time_usecs -ℤ state.script_start_time_usecs in
    state.live_start_time_usecs +ℤ offset_usecs

unfoldable pub live_time_to_script_time_usecs : State → ℤ → ℤ
live_time_to_script_time_usecs state live_time_usecs =
    let offset_usecs = live_time_usecs -ℤ state.live_start_time_usecs in
    state.script_start_time_usecs +ℤ offset_usecs

abbrev pub within : ℤ → ℤ → ℤ → ℤ → Bool
within tolerance_usecs expected_usecs expected_usecs_end actual_usecs = not (
    ltb_ℤ actual_usecs (expected_usecs -ℤ tolerance_usecs)
    || ltb_ℤ (expected_usecs_end +ℤ tolerance_usecs) actual_usecs)

unfoldable pub verify_time : State → TimeType → ℤ → ℤ → ℤ → TimeVerdict
verify_time state time_type script_usecs script_usecs_end live_usecs =
    let expected_usecs = script_usecs -ℤ state.script_start_time_usecs in
    let expected_usecs_end = script_usecs_end -ℤ state.script_start_time_usecs in
    let actual_usecs = live_usecs -ℤ state.live_start_time_usecs in
    let tolerance_usecs = state.tolerance_usecs in
    elim time_type [
      | any_time ↦ in_time
      | absolute_range_time ↦
          if within tolerance_usecs expected_usecs expected_usecs_end actual_usecs
          then in_time
          else outside_range
      | relative_range_time ↦
          if within tolerance_usecs expected_usecs expected_usecs_end actual_usecs
          then in_time
          else outside_relative_range
      | _ ↦
          if within tolerance_usecs expected_usecs expected_usecs actual_usecs
          then in_time
          else outside_tolerance
    ]

unfoldable pub check_event_time : State → Event → ℤ → TimeVerdict
unfolding verify_time
check_event_time state event live_usecs =
    verify_time state event.time_type event.time_usecs event.time_usecs_end live_usecs

abbrev pub is_packet : EventType → Bool
is_packet packet_event = true
is_packet _ = false

abbrev pub is_syscall : EventType → Bool
is_syscall syscall_event = true
is_syscall _ = false

unfoldable pub is_event_start_time_anchored : Event → Bool
is_event_start_time_anchored event = is_packet event.type && event.inbound

unfoldable pub is_event_time_absolute : Event → Bool
is_event_time_absolute event = elim event.time_type [
  | absolute_time ↦ true
  | absolute_range_time ↦ true
  | _ ↦ false
]

-- SYSCALL_NON_BLOCKING is -1.
unfoldable pub is_blocking_syscall : Event → Bool
is_blocking_syscall event = not (is_zero_ℤ (event.end_usecs +ℤ pos 1))

abbrev pub anchored_after : Option Event → Event → Bool
anchored_after none event = false
anchored_after (some last) event =
    is_event_start_time_anchored last && is_event_start_time_anchored event

abbrev last_time : Option Event → ℤ
last_time none = pos 0
last_time (some last) = last.time_usecs

-- `now` is the clock's reading. The current event as the function leaves it.
unfoldable pub adjust_relative_event_times : State → ℤ → Event → Event
unfolding is_event_start_time_anchored is_blocking_syscall
adjust_relative_event_times state now event =
    let offset =
      if anchored_after state.last_event event
      then last_time state.last_event
      else now -ℤ state.live_start_time_usecs in
    let moved = record event { offset_usecs = offset; time_usecs = event.time_usecs +ℤ offset } in
    elim event.time_type [
      | any_time ↦ moved
      | relative_time ↦
          if is_syscall event.type && is_blocking_syscall event
          then record moved { end_usecs = event.end_usecs +ℤ offset }
          else moved
      | relative_range_time ↦ record moved { time_usecs_end = event.time_usecs_end +ℤ offset }
      | _ ↦ event
    ]
