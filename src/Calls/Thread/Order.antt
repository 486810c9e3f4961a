-- ===== src/Calls/Thread/Order.antt =====
-- The order of system calls, and the end of both threads.
use qo_smos.Prelude.{
  ◌≡◌, refl, true, List, [], ◌∷◌, ◌++◌, Option, some, append_assoc, append_nil, if◌then◌else◌,
  arith,
}
use qo_smos.Calls.Handlers.{
  SyscallState, syscall_idle, syscall_enqueued, syscall_running, syscall_exiting,
}
use qo_smos.Calls.Thread.{
  CallEvent, MainPoint, at_next, at_dequeued, at_yield, at_join, ended, ThreadPoint, at_switch,
  invoking, in_call, gone, World, ThreadStep, run_now, enqueue, time_out, dequeued, go_on, stop,
  join, pick, begin, finish_call, leave, die, Reach, here, next, is_alive,
}

-- The event that was enqueued and is not begun.
abbrev pub pending : SyscallState → Option CallEvent → List CallEvent
pending syscall_enqueued (some e) = e ∷ []
pending state event = []

abbrev pub running : ThreadPoint → List CallEvent
running (in_call e) = e ∷ []
running point = []

abbrev pub blocking_of : List CallEvent → List CallEvent
blocking_of [] = []
blocking_of (e ∷ es) = if e.blocking then e ∷ blocking_of es else blocking_of es

-- How the points of the two threads and the shared state go together.
abbrev pub Fits : SyscallState → MainPoint → ThreadPoint → Option CallEvent → Type 0
Fits syscall_idle at_next at_switch event = Unit
Fits syscall_idle at_dequeued at_switch event = Unit
Fits syscall_idle at_yield at_switch event = Unit
Fits syscall_enqueued at_dequeued at_switch (some e) = e.blocking ≡ true
Fits syscall_enqueued at_dequeued (invoking e) event = (event ≡ some e) × (e.blocking ≡ true)
Fits syscall_running at_next (in_call e) event = Unit
Fits syscall_running at_dequeued (in_call e) event = Unit
Fits syscall_running at_yield (in_call e) event = Unit
Fits syscall_exiting at_join at_switch event = Unit
Fits syscall_exiting at_join gone event = Unit
Fits syscall_exiting ended gone event = Unit
Fits state main thread event = ⊥

abbrev pub IsOrdered : List CallEvent → World → Type 0
IsOrdered script w =
    is_alive w.main ≡ true
    → (w.started ++ (pending w.state w.event ++ w.todo) ≡ script)
      × (blocking_of w.started ≡ w.finished ++ running w.thread)
      × Fits w.state w.main w.thread w.event
      × (w.state ≡ syscall_exiting → w.todo ≡ [])

blocking_of-append :
    (es fs : List CallEvent) → blocking_of (es ++ fs) ≡ blocking_of es ++ blocking_of fs
blocking_of-append [] fs = refl
blocking_of-append (e ∷ es) fs = ground (arith, blocking_of-append es fs)

begun-blocking_of :
    (started finished : List CallEvent) (e : CallEvent)
    → e.blocking ≡ true
    → blocking_of started ≡ finished ++ []
    → blocking_of (started ++ e ∷ []) ≡ finished ++ e ∷ []
begun-blocking_of started finished e b h =
    rw (blocking_of-append started (e ∷ []), h, append_nil finished, b) refl

alive_at : (p q : MainPoint) → p ≡ q → is_alive q ≡ true → is_alive p ≡ true
alive_at p q h a = rw h a

ThreadStep-IsOrdered :
    {script : List CallEvent} {v w : World}
    → ThreadStep v w
    → IsOrdered script v
    → IsOrdered script w
ThreadStep-IsOrdered (run_now v e es m t b) inv alive = ground (
  arith,
  inv (alive_at _ _ m refl),
  append_assoc v.started (e ∷ []) es,
  blocking_of-append v.started (e ∷ []),
  append_nil (blocking_of v.started),
)
ThreadStep-IsOrdered (enqueue v e es m t b s) inv alive = ground (arith, inv (alive_at _ _ m refl))
ThreadStep-IsOrdered (time_out v m n s) inv alive = cc
ThreadStep-IsOrdered (dequeued v m s) inv alive = ground (arith, inv (alive_at _ _ m refl))
ThreadStep-IsOrdered (go_on v m) inv alive = ground (arith, inv (alive_at _ _ m refl))
ThreadStep-IsOrdered (stop v m t s) inv alive = ground (arith, inv (alive_at _ _ m refl))
ThreadStep-IsOrdered (join v m t) inv alive = ground (arith, inv (alive_at _ _ m refl))
ThreadStep-IsOrdered (pick v e a t s ev) inv alive = ground (arith, inv a)
ThreadStep-IsOrdered (begin v e a t s) inv alive =
    ground (
      arith,
      inv a,
      append_assoc v.started (e ∷ []) v.todo,
      begun-blocking_of v.started v.finished e,
    )
ThreadStep-IsOrdered (finish_call v e a t s) inv alive =
    ground (arith, inv a, append_nil (v.finished ++ e ∷ []))
ThreadStep-IsOrdered (leave v a t s) inv alive = ground (arith, inv a)
ThreadStep-IsOrdered (die v a) inv alive = cc

Reach-IsOrdered : {script : List CallEvent} {w : World} → Reach script w → IsOrdered script w
Reach-IsOrdered here alive = (refl, refl, tt, ground arith)
Reach-IsOrdered (next r s) alive = ThreadStep-IsOrdered s (Reach-IsOrdered r) alive

-- As long as no thread has ended the program, the calls begun, the one enqueued and those to come are the script, in its order; those that returned and the one that runs are the blocking ones among those begun; the two threads stand where the shared state says; and only the end of the script makes the other thread leave.
pub calls_in_order :
    (script : List CallEvent) (w : World)
    → Reach script w
    → is_alive w.main ≡ true
    → (w.started ++ (pending w.state w.event ++ w.todo) ≡ script)
      × (blocking_of w.started ≡ w.finished ++ running w.thread)
      × Fits w.state w.main w.thread w.event
      × (w.state ≡ syscall_exiting → w.todo ≡ [])
calls_in_order script w r alive = Reach-IsOrdered r alive

-- A run that ends by itself has begun every call of the script once and in order, every blocking one has returned, and the other thread is gone.
pub all_calls_made :
    (script : List CallEvent) (w : World)
    → Reach script w
    → w.main ≡ ended
    → (w.started ≡ script) × (w.finished ≡ blocking_of script) × (w.thread ≡ gone)
all_calls_made script w r e =
    ground
      (arith, Reach-IsOrdered r (alive_at _ _ e refl), append_nil w.started, append_nil w.finished)
