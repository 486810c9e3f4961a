-- ===== src/Calls/Handover.antt =====
-- What every system call does to the state that the main thread and the thread for system calls share.
use qo_smos.Prelude.{
  ◌+◌, ◌≡◌, Bool, true, false, [], ◌∷◌, if◌then◌else◌, length, length-append, Bool-cases, inl, inr,
  arith,
}
use qo_smos.Prelude.Int.{ℤ, pos, ltb_ℤ}
use qo_smos.Script.{Expressions, Symbols, evaluate_expression_list}
use qo_smos.Script.Outcomes.{Fallible, ◌>>=◌, Returns, Returns-bind, Returns_any}
use qo_smos.Descriptors.{Fds}
use qo_smos.Calls.Handlers.{
  run_handler, invoke_system_call, SystemCall, call_socket, call_bind, call_listen, call_accept,
  call_connect, call_read, call_recv, call_write, call_send, call_fcntl, call_close, call_shutdown,
  call_open, call_sendfile, call_epoll_create, call_pipe, syscall_enqueued, syscall_done, LiveCall,
  Answer, SyscallSpec, CallState, ResultCheck, is_blocking, begin_syscall, end_syscall, make_call,
  plain_call, fd_call, check_fd, syscall_bind, syscall_accept, syscall_read, syscall_recv,
  syscall_write, syscall_send, syscall_fcntl, syscall_shutdown, syscall_open, syscall_sendfile,
  syscall_epoll_create, syscall_socket, syscall_connect, syscall_listen, syscall_close,
  syscall_pipe,
}

-- A blocking call was handed over by the main thread.
abbrev pub IsReady : SyscallSpec → CallState → Type 0
IsReady spec state = is_blocking spec ≡ true → state.syscalls ≡ syscall_enqueued

-- One live call was made, and it is done if it was to block.
abbrev pub IsHanded : SyscallSpec → CallState → CallState → Type 0
IsHanded spec before after =
    (after.syscalls ≡ (if is_blocking spec then syscall_done else before.syscalls))
    × (length after.calls ≡ length before.calls + 1)

if-Returns :
    (Q : CallState → Type 0) (b : Bool) (x y : Fallible CallState)
    → Returns Q x
    → Returns Q y
    → Returns Q (if b then x else y)
if-Returns Q true x y p q = p
if-Returns Q false x y p q = q

module _ (symbols : Symbols) (kernel : LiveCall → Answer) where
  make_call-IsHanded :
      (state : CallState) (spec : SyscallSpec) (mode : ResultCheck) (call : LiveCall)
      → IsReady spec state
      → Returns (λ made. IsHanded spec state made.0) (make_call symbols kernel state spec mode call)
  unfolding make_call begin_syscall end_syscall
  make_call-IsHanded state spec mode call ready = elim (Bool-cases (is_blocking spec)) [
    | inl blocking ↦
        rw blocking (rw (ready blocking) (ground (arith, length-append state.calls (call ∷ []))))
    | inr other ↦ rw other (ground (arith, length-append state.calls (call ∷ [])))
  ]

  plain_call-IsHanded :
      (state : CallState) (spec : SyscallSpec) (mode : ResultCheck) (call : LiveCall)
      → IsReady spec state
      → Returns (IsHanded spec state) (plain_call symbols kernel state spec mode call)
  unfolding plain_call
  plain_call-IsHanded state spec mode call ready =
      Returns-bind (λ made. IsHanded spec state made.0) (IsHanded spec state) _ _
        (make_call-IsHanded state spec mode call ready) λ made h. h

  -- The handler goes on after the call with what leaves the shared state alone.
  make_call_then-IsHanded :
      (state : CallState) (spec : SyscallSpec) (mode : ResultCheck) (call : LiveCall)
      (f : CallState × Answer → Fallible CallState)
      → IsReady spec state
      → ((made : CallState × Answer)
          → IsHanded spec state made.0
          → Returns (IsHanded spec state) (f made))
      → Returns (IsHanded spec state) (make_call symbols kernel state spec mode call >>= f)
  make_call_then-IsHanded state spec mode call f ready next =
      Returns-bind (λ made. IsHanded spec state made.0) (IsHanded spec state) _ f
        (make_call-IsHanded state spec mode call ready) next

  fd_call-IsHanded :
      (state : CallState) (spec : SyscallSpec) (call : LiveCall)
      (record_fd : Fds → ℤ → Answer → Fallible Fds)
      → IsReady spec state
      → Returns (IsHanded spec state) (fd_call symbols kernel state spec call record_fd)
  unfolding fd_call
  fd_call-IsHanded state spec call record_fd ready =
      make_call_then-IsHanded state spec check_fd call _ ready λ made h.
        elim (Bool-cases (ltb_ℤ made.1.result (pos 0))) [
          | inl failed ↦ rw failed h
          | inr created ↦ rw created (search (Returns_any, h))
        ]

  ruleset handing =
      (Returns_any, if-Returns, plain_call-IsHanded, fd_call-IsHanded, make_call_then-IsHanded)

  syscall_bind-IsHanded :
      (state : CallState) (spec : SyscallSpec) (args : Expressions)
      → IsReady spec state
      → Returns (IsHanded spec state) (syscall_bind symbols kernel state spec args)
  unfolding syscall_bind
  syscall_bind-IsHanded state spec args ready = search handing depth 12

  syscall_accept-IsHanded :
      (state : CallState) (spec : SyscallSpec) (args : Expressions)
      → IsReady spec state
      → Returns (IsHanded spec state) (syscall_accept symbols kernel state spec args)
  unfolding syscall_accept
  syscall_accept-IsHanded state spec args ready = search handing depth 12

  syscall_read-IsHanded :
      (state : CallState) (spec : SyscallSpec) (args : Expressions)
      → IsReady spec state
      → Returns (IsHanded spec state) (syscall_read symbols kernel state spec args)
  unfolding syscall_read
  syscall_read-IsHanded state spec args ready = search handing depth 12

  syscall_recv-IsHanded :
      (state : CallState) (spec : SyscallSpec) (args : Expressions)
      → IsReady spec state
      → Returns (IsHanded spec state) (syscall_recv symbols kernel state spec args)
  unfolding syscall_recv
  syscall_recv-IsHanded state spec args ready = search handing depth 12

  syscall_write-IsHanded :
      (state : CallState) (spec : SyscallSpec) (args : Expressions)
      → IsReady spec state
      → Returns (IsHanded spec state) (syscall_write symbols kernel state spec args)
  unfolding syscall_write
  syscall_write-IsHanded state spec args ready = search handing depth 12

  syscall_send-IsHanded :
      (state : CallState) (spec : SyscallSpec) (args : Expressions)
      → IsReady spec state
      → Returns (IsHanded spec state) (syscall_send symbols kernel state spec args)
  unfolding syscall_send
  syscall_send-IsHanded state spec args ready = search handing depth 12

  syscall_fcntl-IsHanded :
      (state : CallState) (spec : SyscallSpec) (args : Expressions)
      → IsReady spec state
      → Returns (IsHanded spec state) (syscall_fcntl symbols kernel state spec args)
  unfolding syscall_fcntl
  syscall_fcntl-IsHanded state spec args ready = search handing depth 12

  syscall_shutdown-IsHanded :
      (state : CallState) (spec : SyscallSpec) (args : Expressions)
      → IsReady spec state
      → Returns (IsHanded spec state) (syscall_shutdown symbols kernel state spec args)
  unfolding syscall_shutdown
  syscall_shutdown-IsHanded state spec args ready = search handing depth 12

  syscall_open-IsHanded :
      (state : CallState) (spec : SyscallSpec) (args : Expressions)
      → IsReady spec state
      → Returns (IsHanded spec state) (syscall_open symbols kernel state spec args)
  unfolding syscall_open
  syscall_open-IsHanded state spec args ready = search handing depth 12

  syscall_sendfile-IsHanded :
      (state : CallState) (spec : SyscallSpec) (args : Expressions)
      → IsReady spec state
      → Returns (IsHanded spec state) (syscall_sendfile symbols kernel state spec args)
  unfolding syscall_sendfile
  syscall_sendfile-IsHanded state spec args ready = search handing depth 12

  syscall_epoll_create-IsHanded :
      (state : CallState) (spec : SyscallSpec) (args : Expressions)
      → IsReady spec state
      → Returns (IsHanded spec state) (syscall_epoll_create symbols kernel state spec args)
  unfolding syscall_epoll_create
  syscall_epoll_create-IsHanded state spec args ready = search handing depth 12

  syscall_socket-IsHanded :
      (state : CallState) (spec : SyscallSpec) (args : Expressions)
      → IsReady spec state
      → Returns (IsHanded spec state) (syscall_socket symbols kernel state spec args)
  unfolding syscall_socket
  syscall_socket-IsHanded state spec args ready = search handing depth 12

  syscall_connect-IsHanded :
      (state : CallState) (spec : SyscallSpec) (args : Expressions)
      → IsReady spec state
      → Returns (IsHanded spec state) (syscall_connect symbols kernel state spec args)
  unfolding syscall_connect
  syscall_connect-IsHanded state spec args ready = search handing depth 12

  syscall_listen-IsHanded :
      (state : CallState) (spec : SyscallSpec) (args : Expressions)
      → IsReady spec state
      → Returns (IsHanded spec state) (syscall_listen symbols kernel state spec args)
  unfolding syscall_listen
  syscall_listen-IsHanded state spec args ready = search handing depth 12

  syscall_close-IsHanded :
      (state : CallState) (spec : SyscallSpec) (args : Expressions)
      → IsReady spec state
      → Returns (IsHanded spec state) (syscall_close symbols kernel state spec args)
  unfolding syscall_close
  syscall_close-IsHanded state spec args ready = search handing depth 12

  syscall_pipe-IsHanded :
      (state : CallState) (spec : SyscallSpec) (args : Expressions)
      → IsReady spec state
      → Returns (IsHanded spec state) (syscall_pipe symbols kernel state spec args)
  unfolding syscall_pipe
  syscall_pipe-IsHanded state spec args ready = search handing depth 12

  run_handler-IsHanded :
      (call : SystemCall) (state : CallState) (spec : SyscallSpec) (args : Expressions)
      → IsReady spec state
      → Returns (IsHanded spec state) (run_handler symbols kernel call state spec args)
  unfolding run_handler
  run_handler-IsHanded call_socket = syscall_socket-IsHanded
  run_handler-IsHanded call_bind = syscall_bind-IsHanded
  run_handler-IsHanded call_listen = syscall_listen-IsHanded
  run_handler-IsHanded call_accept = syscall_accept-IsHanded
  run_handler-IsHanded call_connect = syscall_connect-IsHanded
  run_handler-IsHanded call_read = syscall_read-IsHanded
  run_handler-IsHanded call_recv = syscall_recv-IsHanded
  run_handler-IsHanded call_write = syscall_write-IsHanded
  run_handler-IsHanded call_send = syscall_send-IsHanded
  run_handler-IsHanded call_fcntl = syscall_fcntl-IsHanded
  run_handler-IsHanded call_close = syscall_close-IsHanded
  run_handler-IsHanded call_shutdown = syscall_shutdown-IsHanded
  run_handler-IsHanded call_open = syscall_open-IsHanded
  run_handler-IsHanded call_sendfile = syscall_sendfile-IsHanded
  run_handler-IsHanded call_epoll_create = syscall_epoll_create-IsHanded
  run_handler-IsHanded call_pipe = syscall_pipe-IsHanded

  -- When a system call of the script succeeds, the system was asked exactly once; a blocking call that the main thread handed over as enqueued is then done, and any other leaves the state of the thread alone.
  pub invoke_system_call-IsHanded :
      (call : SystemCall) (state : CallState) (spec : SyscallSpec)
      → IsReady spec state
      → Returns (IsHanded spec state) (invoke_system_call symbols kernel call state spec)
  unfolding invoke_system_call
  invoke_system_call-IsHanded call state spec ready =
      Returns_any (IsHanded spec state) (evaluate_expression_list symbols spec.arguments) _
        λ args. run_handler-IsHanded call state spec args ready
