-- ===== src/Tests/Times.antt =====
-- Runs of the times of events.
use qo_smos.Prelude.{
  false, ℕ, ◌+◌, ◌*◌, ◌≡◌, refl, true, List, [], ◌∷◌, ◌++◌, Option, none, some, arith, ◌↔◌, ◌⊎◌,
  inr,
}
use qo_smos.Prelude.Int.{ℤ, pos, negsuc, ◌+ℤ◌, ◌-ℤ◌, ◌≤ℤ◌}
use qo_smos.Timing.{
  Event, State, TimeType, absolute_time, relative_time, absolute_range_time, packet_event,
  syscall_event, command_event, code_event, in_time, any_time, verify_time,
  script_time_to_live_time_usecs, live_time_to_script_time_usecs, is_event_time_absolute,
  adjust_relative_event_times, TimeVerdict,
}
use qo_smos.Timing.Exact.{verify_time-exact}
use qo_smos.Timing.Events.{
  Handlers, is_backward, get_next_event, run_event, bad_script, time_goes_backward, handler,
  run_script,
}
use qo_smos.Timing.Events.Order.{Ends, Logs, run_script-Ends, script_refusal}
use qo_smos.Timing.Waiting.{IsFirst, wait_for_event, wait_for_event-returns}
use qo_smos.Timing.Adjusting.{IsMoved, adjust_relative_event_times_lem}

abbrev pub packet_at : ℕ → TimeType → ℤ → Event
packet_at line kind time = record {
  line_number = line;
  time_usecs = time;
  time_usecs_end = negsuc 0;
  offset_usecs = negsuc 0;
  time_type = kind;
  type = packet_event;
  inbound = true;
  end_usecs = negsuc 0;
}

abbrev a_script : List Event
a_script =
    packet_at 1 absolute_time (pos 0)
    ∷ packet_at 2 relative_time (pos 100)
    ∷ packet_at 3 absolute_time (pos 50)
    ∷ packet_at 4 absolute_time (pos 80)
    ∷ []

abbrev bad_order : List Event
bad_order =
    packet_at 1 absolute_time (pos 0)
    ∷ packet_at 2 absolute_time (pos 100)
    ∷ packet_at 3 absolute_time (pos 50)
    ∷ []

-- A world that is a clock and a log.
abbrev log_line : State → Event → ℕ × List ℕ → Option (ℕ × List ℕ)
log_line state event (now, log) = some (now + 10, log ++ (event.line_number ∷ []))

abbrev logger : Handlers (ℕ × List ℕ)
logger = record {
  now_usecs = λ w. pos w.0;
  run_packet_event = log_line;
  run_system_call_event = log_line;
  run_command_event = log_line;
  run_code_event = log_line;
}

abbrev log_of : ℕ × List ℕ → List ℕ
log_of w = w.1

logger-Logs : Logs logger log_of
unfolding handler
logger-Logs packet_event state event w = (_, refl, refl)
logger-Logs syscall_event state event w = (_, refl, refl)
logger-Logs command_event state event w = (_, refl, refl)
logger-Logs code_event state event w = (_, refl, refl)

abbrev pub mid_run : State
mid_run = record {
  tolerance_usecs = pos 4;
  script_start_time_usecs = pos 0;
  script_last_time_usecs = pos 0;
  live_start_time_usecs = pos 1000;
  event = none;
  last_event = some (packet_at 1 absolute_time (pos 70));
  next = [];
  event_list = [];
  num_events = 1;
}

before_start : live_time_to_script_time_usecs mid_run (pos 900) ≡ negsuc 99
unfolding live_time_to_script_time_usecs ◌+ℤ◌ ◌-ℤ◌
before_start = refl

verify_time-exact_example :
    verify_time mid_run absolute_range_time (pos 10) (pos 20) (pos 1024) ≡ in_time
unfolding script_time_to_live_time_usecs ◌+ℤ◌ ◌-ℤ◌
verify_time-exact_example =
    (verify_time-exact mid_run absolute_range_time (pos 10) (pos 20) (pos 1024)).1
      (inr (omega arith, omega arith))

run_script-Ends_example :
    Ends log_of
      (1 ∷ 2 ∷ 3 ∷ 4 ∷ [])
      4
      none
      (run_script logger (pos 4) a_script (pos 1000) (1000, []))
unfolding script_refusal is_backward
run_script-Ends_example =
    run_script-Ends logger log_of logger-Logs (pos 4) a_script (pos 1000) (1000, [])

goes_backward :
    run_script logger (pos 4) bad_order (pos 1000) (1000, []) ≡ bad_script (time_goes_backward 3)
unfolding run_script get_next_event run_event adjust_relative_event_times is_backward ◌+ℤ◌ ◌-ℤ◌
goes_backward = refl

-- A clock that ticks every 30 microseconds reaches 1070 at its third reading.
abbrev slow_clock : ℕ → ℤ
slow_clock n = pos (1000 + n * 30)

third_reading : IsFirst slow_clock (script_time_to_live_time_usecs mid_run (pos 70)) 3
unfolding script_time_to_live_time_usecs ◌+ℤ◌ ◌-ℤ◌
third_reading = record { reached = omega arith; before = λ i h. omega arith }

wait_for_event-returns_example :
    (verdict : TimeVerdict) × (wait_for_event mid_run
        (packet_at 2 absolute_time (pos 70))
        slow_clock
        9
      ≡ some verdict)
    × ((verdict ≡ in_time) ↔ (
        (absolute_time ≡ any_time)
        ⊎ (pos 1120 ≤ℤ script_time_to_live_time_usecs mid_run (pos 70) +ℤ pos 4)))
wait_for_event-returns_example =
    wait_for_event-returns mid_run (packet_at 2 absolute_time (pos 70)) slow_clock 3 9 third_reading
      (omega arith) (omega arith) (omega arith) (omega arith)

-- A blocking call that starts 5 microseconds after an inbound packet and lasts for 20.
abbrev later_call : Event
later_call = record (packet_at 2 relative_time (pos 5)) { type = syscall_event; end_usecs = pos 25 }

adjust_relative_event_times_lem_example :
    (is_event_time_absolute later_call ≡ true
      → adjust_relative_event_times mid_run (pos 1090) later_call ≡ later_call)
    × (is_event_time_absolute later_call ≡ false
        → IsMoved mid_run
            (pos 1090)
            later_call
            (adjust_relative_event_times mid_run (pos 1090) later_call))
adjust_relative_event_times_lem_example =
    adjust_relative_event_times_lem mid_run (pos 1090) later_call refl

adjusted_call :
    ((adjust_relative_event_times mid_run (pos 1090) later_call).time_usecs ≡ pos 95)
    × ((adjust_relative_event_times mid_run (pos 1090) later_call).end_usecs ≡ pos 115)
unfolding adjust_relative_event_times ◌+ℤ◌ ◌-ℤ◌
adjusted_call = (refl, refl)
