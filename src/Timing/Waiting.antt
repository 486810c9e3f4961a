-- ===== src/Timing/Waiting.antt =====
-- `wait_for_event` of app/src/main/cpp/run.c. The clock is the sequence of the times that
-- `now_usecs` reads, one at each call; a sleep only lets time pass between two readings. Messages
-- for debugging read no clock here.
use qo_smos.Prelude.{
  ℕ, zero, suc, ◌+◌, ◌<◌, ◌≡◌, refl, true, false, Option, none, some, if◌then◌else◌, arith, ltb,
  lt→ltb, ◌↔◌, ◌⊎◌, sym, ap,
}
use mathlib.Core.Path.{subst}
use qo_smos.Prelude.Int.{ℤ, pos, ◌+ℤ◌, ◌-ℤ◌, ◌≤ℤ◌, ◌<ℤ◌, ltb_ℤ, int_laws}
use qo_smos.Timing.{
  Event, State, TimeVerdict, in_time, any_time, script_time_to_live_time_usecs, check_event_time,
}
use qo_smos.Timing.Exact.{IsClose, last_time_of, verify_time-exact}

-- The loop, on fuel: the number of the reading that ends it.
unfoldable pub spin : (ℕ → ℤ) → ℤ → ℕ → ℕ → Option ℕ
spin clock event_usecs zero reading = none
spin clock event_usecs (suc fuel) reading =
    let rest = spin clock event_usecs fuel (suc reading) in
    let wait_usecs = event_usecs -ℤ clock reading in
    if ltb_ℤ (pos 0) wait_usecs then rest else some reading

-- The verdict on the time after the wait; the first event's is not checked. `none` is the end of fuel.
unfoldable pub wait_for_event : State → Event → (ℕ → ℤ) → ℕ → Option TimeVerdict
unfolding spin
wait_for_event state event clock fuel =
    elim (spin clock (script_time_to_live_time_usecs state event.time_usecs) fuel 0) [
      | none ↦ none
      | some reading ↦ some (
          if ltb 0 state.num_events
          then check_event_time state event (clock (suc reading))
          else in_time)
    ]

-- The reading at which the clock first shows `at` or later.
pub record IsFirst (clock : ℕ → ℤ) (at : ℤ) (n : ℕ) : Type 0 where
  pub reached : at ≤ℤ clock n
  pub before : (i : ℕ) → i < n → clock i <ℤ at

still_waiting : (at now : ℤ) → now <ℤ at → ltb_ℤ (pos 0) (at -ℤ now) ≡ true
unfolding ◌-ℤ◌
still_waiting at now h = ground arith

wait_over : (at now : ℤ) → at ≤ℤ now → ltb_ℤ (pos 0) (at -ℤ now) ≡ false
unfolding ◌-ℤ◌
wait_over at now h = ground arith

spin_lem :
    (clock : ℕ → ℤ) (at : ℤ) (n fuel left reading : ℕ)
    → IsFirst clock at n
    → reading + left ≡ n
    → left < fuel
    → spin clock at fuel reading ≡ some n
unfolding spin
spin_lem clock at n zero left reading first e h = absurd (omega arith)
spin_lem clock at n (suc fuel) zero reading first e h =
    let here : n ≡ reading = omega arith in
    rw (wait_over at (clock reading) (subst (λ i. at ≤ℤ clock i) here first.reached))
      (ap some (sym here))
spin_lem clock at n (suc fuel) (suc left) reading first e h =
    rw (still_waiting at (clock reading) (first.before reading (omega arith)))
      (spin_lem clock at n fuel left (suc reading) first (omega arith) (omega arith))

-- When the clock reaches the live time of the event at reading n, with all readings before that earlier, `wait_for_event` returns with fuel for n + 1 readings or more. If it is not the first event, the clock's next reading is not before that and the tolerance is not negative, then the time is accepted exactly when it is ANY_TIME or that next reading is at most the tolerance after the event's live time, or its live end for a range.
pub wait_for_event-returns :
    (state : State) (event : Event) (clock : ℕ → ℤ) (n fuel : ℕ)
    → IsFirst clock (script_time_to_live_time_usecs state event.time_usecs) n
    → n < fuel
    → 0 < state.num_events
    → clock n ≤ℤ clock (suc n)
    → pos 0 ≤ℤ state.tolerance_usecs
    → (verdict : TimeVerdict) × (wait_for_event state event clock fuel ≡ some verdict)
      × ((verdict ≡ in_time) ↔ (
          (event.time_type ≡ any_time)
          ⊎ (clock (suc n)
              ≤ℤ script_time_to_live_time_usecs state
                  (last_time_of event.time_type event.time_usecs event.time_usecs_end)
                +ℤ state.tolerance_usecs)))
unfolding wait_for_event check_event_time
wait_for_event-returns state event clock n fuel first enough later onward slack = (
  check_event_time state event (clock (suc n)),
  rw
      (
        spin_lem clock (script_time_to_live_time_usecs state event.time_usecs) n fuel n 0 first
            (omega arith) enough,
        wait_for_event,
      )
      (rw (lt→ltb 0 state.num_events later) refl),
  close,
)
  where
    exact : (check_event_time state event (clock (suc n)) ≡ in_time) ↔ (
        (event.time_type ≡ any_time)
        ⊎ IsClose state event.time_usecs
            (last_time_of event.time_type event.time_usecs event.time_usecs_end)
            (clock (suc n)))
    exact =
        verify_time-exact state event.time_type event.time_usecs event.time_usecs_end
          (clock (suc n))

    not_early :
        script_time_to_live_time_usecs state event.time_usecs
        ≤ℤ clock (suc n) +ℤ state.tolerance_usecs
    not_early = omega (int_laws, first.reached)

    close : (check_event_time state event (clock (suc n)) ≡ in_time) ↔ (
        (event.time_type ≡ any_time)
        ⊎ (clock (suc n)
            ≤ℤ script_time_to_live_time_usecs state
                (last_time_of event.time_type event.time_usecs event.time_usecs_end)
              +ℤ state.tolerance_usecs))
    close = ground (arith, exact, not_early)
