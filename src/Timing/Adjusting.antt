-- ===== src/Timing/Adjusting.antt =====
-- What `adjust_relative_event_times` makes of an event's times.
use qo_smos.Prelude.{
  ◌≡◌, ◌≢◌, refl, arith, Bool, true, false, some, ◌&&◌, Bool-cases, Option-cases, ap, ◌∙◌,
  if◌then◌else◌, inl, inr,
}
use qo_smos.Prelude.Int.{ℤ, pos, ◌+ℤ◌, ◌-ℤ◌, int_laws}
use qo_smos.Timing.{
  relative_time, relative_range_time, Event, State, is_syscall, is_blocking_syscall,
  is_event_time_absolute, adjust_relative_event_times, live_time_to_script_time_usecs,
  is_event_start_time_anchored, anchored_after, last_time,
}

-- The event before, if it is an inbound packet as this one is.
abbrev pub IsAnchoredAt : State → Event → Event → Type 0
IsAnchoredAt state event last =
    (state.last_event ≡ some last)
    × (is_event_start_time_anchored last ≡ true)
    × (is_event_start_time_anchored event ≡ true)

-- A call with an end of its own, at a relative time.
abbrev pub has_relative_end : Event → Bool
has_relative_end event = elim event.time_type [
  | relative_time ↦ is_syscall event.type && is_blocking_syscall event
  | _ ↦ false
]

-- How the times of an event that starts relatively are moved: a range keeps its width and a blocking call
-- its duration, and no other end is moved.
pub record IsMoved (state : State) (now : ℤ) (event moved : Event) : Type 0 where
  pub anchored :
      (last : Event)
      → IsAnchoredAt state event last
      → moved.time_usecs ≡ event.time_usecs +ℤ last.time_usecs
  pub free :
      ((last : Event) → ¬ IsAnchoredAt state event last)
      → moved.time_usecs ≡ live_time_to_script_time_usecs state (now +ℤ event.time_usecs)
  pub width :
      event.time_type ≡ relative_range_time
      → moved.time_usecs_end -ℤ moved.time_usecs ≡ event.time_usecs_end -ℤ event.time_usecs
  pub no_range : event.time_type ≢ relative_range_time → moved.time_usecs_end ≡ event.time_usecs_end
  pub duration :
      has_relative_end event ≡ true
      → moved.end_usecs -ℤ moved.time_usecs ≡ event.end_usecs -ℤ event.time_usecs
  pub no_duration : has_relative_end event ≡ false → moved.end_usecs ≡ event.end_usecs

later_by :
    (state : State) (now t : ℤ)
    → state.script_start_time_usecs ≡ pos 0
    → t +ℤ (now -ℤ state.live_start_time_usecs) ≡ live_time_to_script_time_usecs state (now +ℤ t)
unfolding live_time_to_script_time_usecs
later_by state now t start = rw start (omega int_laws)

same_distance : (a b c : ℤ) → (a +ℤ c) -ℤ (b +ℤ c) ≡ a -ℤ b
same_distance a b c = omega int_laws

module _ (state : State) (now : ℤ) (event : Event) where
  abbrev moved_by : ℤ
  moved_by =
      if anchored_after state.last_event event
      then last_time state.last_event
      else now -ℤ state.live_start_time_usecs

  abbrev moved_event : Event
  moved_event = adjust_relative_event_times state now event

  starts_later :
      is_event_time_absolute event ≡ false → moved_event.time_usecs ≡ event.time_usecs +ℤ moved_by
  unfolding adjust_relative_event_times is_event_time_absolute
  starts_later relative = ground (arith, relative)

  anchored_by : (last : Event) → IsAnchoredAt state event last → moved_by ≡ last.time_usecs
  anchored_by last (before, a, b) = ground (arith, before, a, b)

  free_after :
      ((last : Event) → ¬ IsAnchoredAt state event last)
      → anchored_after state.last_event event ≡ false
  free_after none_before = elim (Option-cases state.last_event) [
    | inl absent ↦ rw absent refl
    | inr (last, before) ↦ elim (Bool-cases (anchored_after state.last_event event)) [
      | inr isnt ↦ isnt
      | inl is ↦
          absurd (none_before last (before, ground (arith, is, before), ground (arith, is, before)))
    ]
  ]

  free_by :
      ((last : Event) → ¬ IsAnchoredAt state event last)
      → moved_by ≡ now -ℤ state.live_start_time_usecs
  free_by none_before = rw (free_after none_before) refl

  range_end :
      event.time_type ≡ relative_range_time
      → moved_event.time_usecs_end ≡ event.time_usecs_end +ℤ moved_by
  unfolding adjust_relative_event_times
  range_end range = ground (arith, range)

  no_range_end :
      event.time_type ≢ relative_range_time → moved_event.time_usecs_end ≡ event.time_usecs_end
  unfolding adjust_relative_event_times
  no_range_end range = ground (arith, range)

  call_end : has_relative_end event ≡ true → moved_event.end_usecs ≡ event.end_usecs +ℤ moved_by
  unfolding adjust_relative_event_times
  call_end ends = ground (arith, ends)

  no_call_end : has_relative_end event ≡ false → moved_event.end_usecs ≡ event.end_usecs
  unfolding adjust_relative_event_times
  no_call_end ends = ground (arith, ends)

  stays : is_event_time_absolute event ≡ true → moved_event ≡ event
  unfolding adjust_relative_event_times is_event_time_absolute
  stays absolute = ground (arith, absolute)

  -- An event with an absolute time is left as it is. In a script that starts at time 0, any other starts later: an inbound packet behind an inbound packet by that one's time, and every other at the script time of the clock's reading plus its own. A relative range keeps its width and a blocking call at a relative time its duration, and any other end stays.
  pub adjust_relative_event_times_lem :
      state.script_start_time_usecs ≡ pos 0
      → (is_event_time_absolute event ≡ true → adjust_relative_event_times state now event ≡ event)
        × (is_event_time_absolute event ≡ false
            → IsMoved state now event (adjust_relative_event_times state now event))
  adjust_relative_event_times_lem start = (
    stays,
    λ relative. record {
      anchored = λ last before.
          starts_later relative ∙ ap (λ o. event.time_usecs +ℤ o) (anchored_by last before);
      free = λ none_before.
          starts_later relative
          ∙ ap (λ o. event.time_usecs +ℤ o) (free_by none_before)
          ∙ later_by state now event.time_usecs start;
      width = λ range.
          rw (range_end range, starts_later relative)
            (same_distance event.time_usecs_end event.time_usecs moved_by);
      no_range = no_range_end;
      duration = λ ends.
          rw (call_end ends, starts_later relative)
            (same_distance event.end_usecs event.time_usecs moved_by);
      no_duration = no_call_end;
    },
  )
