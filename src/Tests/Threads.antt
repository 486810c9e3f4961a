-- ===== src/Tests/Threads.antt =====
-- A blocking call between two others.
use qo_smos.Prelude.{◌≡◌, ◌≢◌, refl, true, false, List, [], ◌∷◌, none, some}
use qo_smos.Calls.Handlers.{syscall_idle, syscall_enqueued, syscall_running, syscall_exiting}
use qo_smos.Calls.Thread.{
  CallEvent, World, Reach, here, next, run_now, enqueue, dequeued, go_on, stop, join, pick, begin,
  finish_call, leave, at_next, at_dequeued, at_yield, at_join, ended, at_switch, invoking, in_call,
  gone,
}
use qo_smos.Calls.Thread.Order.{blocking_of, all_calls_made}

abbrev first : CallEvent
first = record { line_number = 1; blocking = true }

abbrev second : CallEvent
second = record { line_number = 2; blocking = false }

abbrev script : List CallEvent
script = first ∷ second ∷ []

abbrev w0 : World
w0 = record {
  state = syscall_idle;
  event = none;
  todo = script;
  main = at_next;
  thread = at_switch;
  started = [];
  finished = [];
}

abbrev w1 : World
w1 = record w0 {
  event = some first;
  todo = second ∷ [];
  state = syscall_enqueued;
  main = at_dequeued;
}

abbrev w2 : World
w2 = record w1 { thread = invoking first }

abbrev w3 : World
w3 = record w2 { state = syscall_running; thread = in_call first; started = first ∷ [] }

abbrev w4 : World
w4 = record w3 { main = at_yield }

abbrev w5 : World
w5 = record w4 { main = at_next }

-- The second call runs while the first is still in the system.
abbrev w6 : World
w6 = record w5 { event = some second; todo = []; started = first ∷ second ∷ [] }

abbrev w7 : World
w7 = record w6 { state = syscall_idle; thread = at_switch; finished = first ∷ [] }

abbrev w8 : World
w8 = record w7 { state = syscall_exiting; main = at_join }

abbrev w9 : World
w9 = record w8 { thread = gone }

abbrev w10 : World
w10 = record w9 { main = ended }

running_first : Reach script w3
running_first =
    next
      (next (next here (enqueue w0 first (second ∷ []) refl refl refl refl))
        (pick w1 first refl refl refl refl))
      (begin w2 first refl refl refl)

is_running : w3.state ≢ syscall_enqueued
is_running h = cc

to_the_end : Reach script w10
to_the_end =
    next
      (next
        (next
          (next
            (next (next (next running_first (dequeued w3 refl is_running)) (go_on w4 refl))
              (run_now w5 second [] refl refl refl))
            (finish_call w6 first refl refl refl))
          (stop w7 refl refl refl))
        (leave w8 refl refl refl))
      (join w9 refl refl)

all_calls_made_example :
    (w10.started ≡ script) × (w10.finished ≡ blocking_of script) × (w10.thread ≡ gone)
all_calls_made_example = all_calls_made script w10 to_the_end refl
