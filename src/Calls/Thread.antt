-- ===== src/Calls/Thread.antt =====
-- The main thread and the thread for blocking system calls in run_system_call.c: run_system_call_event, enqueue_system_call, begin_syscall, end_syscall, system_call_thread and syscalls_free. A step is what one thread does while it holds the global lock. Who holds the lock and the signals that end a wait are left out, so that the steps have every interleaving of the program, and more: what holds after each of them holds in it, but not that a waiting thread is woken.
pub mod Order
use qo_smos.Prelude.{ℕ, ◌≡◌, ◌≢◌, Bool, true, false, List, [], ◌∷◌, ◌++◌, Option, none, some}
use qo_smos.Calls.Handlers.{
  SyscallState, syscall_idle, syscall_enqueued, syscall_running, syscall_exiting,
}

-- An event of a system call: its line, and whether it may block.
pub record CallEvent : Type 0 where
  pub line_number : ℕ
  pub blocking : Bool

-- Where the main thread stands: before the next event; in enqueue_system_call, waiting for the signal
-- `dequeued` or for the other thread to sleep; in pthread_join; behind syscalls_free; or out by `die`.
pub data MainPoint : Type 0 where
  at_next at_dequeued at_yield at_join ended died : MainPoint

-- Where the other stands: at the switch of its loop, which has the wait for `enqueued` in it; in
-- invoke_system_call before begin_syscall; in the system call; or out of the loop.
pub data ThreadPoint : Type 0 where
  at_switch : ThreadPoint
  invoking in_call : CallEvent → ThreadPoint
  gone : ThreadPoint

-- `event` is the run's current event, and `todo` those after it. `started` are the events whose live call
-- was begun, and `finished` those that blocked and returned.
pub record World : Type 0 where
  pub state : SyscallState
  pub event : Option CallEvent
  pub todo : List CallEvent
  pub main : MainPoint
  pub thread : ThreadPoint
  pub started : List CallEvent
  pub finished : List CallEvent

abbrev pub is_alive : MainPoint → Bool
is_alive died = false
is_alive point = true

-- A blocking call and the end of the run wait for an idle thread.
abbrev pub next_blocks : List CallEvent → Bool
next_blocks [] = true
next_blocks (e ∷ es) = e.blocking

-- `die` in any thread ends the program.
pub data ThreadStep : World → World → Type 0 where
  -- await_idle_thread returns, in time or not: its status is not looked at.
  run_now :
      (w : World) (e : CallEvent) (es : List CallEvent)
      → w.main ≡ at_next
      → w.todo ≡ e ∷ es
      → e.blocking ≡ false
      → ThreadStep w (record w { event = some e; todo = es; started = w.started ++ e ∷ [] })
  enqueue :
      (w : World) (e : CallEvent) (es : List CallEvent)
      → w.main ≡ at_next
      → w.todo ≡ e ∷ es
      → e.blocking ≡ true
      → w.state ≡ syscall_idle
      → ThreadStep w
          (record w { event = some e; todo = es; state = syscall_enqueued; main = at_dequeued })
  -- The wait for an idle thread takes more than a second.
  time_out :
      (w : World)
      → w.main ≡ at_next
      → next_blocks w.todo ≡ true
      → w.state ≢ syscall_idle
      → ThreadStep w (record w { main = died })
  dequeued :
      (w : World)
      → w.main ≡ at_dequeued
      → w.state ≢ syscall_enqueued
      → ThreadStep w (record w { main = at_yield })
  -- The other thread sleeps or is idle.
  go_on : (w : World) → w.main ≡ at_yield → ThreadStep w (record w { main = at_next })
  stop :
      (w : World)
      → w.main ≡ at_next
      → w.todo ≡ []
      → w.state ≡ syscall_idle
      → ThreadStep w (record w { state = syscall_exiting; main = at_join })
  join : (w : World) → w.main ≡ at_join → w.thread ≡ gone → ThreadStep w (record w { main = ended })
  pick :
      (w : World) (e : CallEvent)
      → is_alive w.main ≡ true
      → w.thread ≡ at_switch
      → w.state ≡ syscall_enqueued
      → w.event ≡ some e
      → ThreadStep w (record w { thread = invoking e })
  begin :
      (w : World) (e : CallEvent)
      → is_alive w.main ≡ true
      → w.thread ≡ invoking e
      → w.state ≡ syscall_enqueued
      → ThreadStep w
          (record w { state = syscall_running; thread = in_call e; started = w.started ++ e ∷ [] })
  -- end_syscall, the check of the time, and idle again, in one hold of the lock.
  finish_call :
      (w : World) (e : CallEvent)
      → is_alive w.main ≡ true
      → w.thread ≡ in_call e
      → w.state ≡ syscall_running
      → ThreadStep w
          (record w { state = syscall_idle; thread = at_switch; finished = w.finished ++ e ∷ [] })
  leave :
      (w : World)
      → is_alive w.main ≡ true
      → w.thread ≡ at_switch
      → w.state ≡ syscall_exiting
      → ThreadStep w (record w { thread = gone })
  -- A call of either thread fails.
  die : (w : World) → is_alive w.main ≡ true → ThreadStep w (record w { main = died })

pub data Reach (script : List CallEvent) : World → Type 0 where
  here : Reach script (record {
    state = syscall_idle;
    event = none;
    todo = script;
    main = at_next;
    thread = at_switch;
    started = [];
    finished = [];
  })
  next : {v w : World} → Reach script v → ThreadStep v w → Reach script w
