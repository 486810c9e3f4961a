-- ===== src/Calls/Handlers.antt =====
-- The handlers of system calls in run_system_call.c. Each reads its arguments, lets the system make the live call, checks the result, and records what the call did to the descriptors.
use qo_smos.Prelude.{
  ℕ, Bool, true, false, not, ◌&&◌, ◌||◌, List, [], ◌∷◌, ◌++◌, Option, none, some, ◌==◌,
  if◌then◌else◌,
}
use qo_smos.Prelude.Int.{ℤ, pos, ltb_ℤ, eq_ℤ, minus_one}
use qo_smos.Script.{
  Expression, Expressions, string, Symbols, symbol_to_int, evaluate_expression_list,
}
use qo_smos.Script.Outcomes.{
  Fallible, ok, err, abort, ◌>>=◌, bad_type, expected_non_negative, expected_result, expected_errno,
  wrong_arg_count,
}
use qo_smos.Address.{Sockaddr}
use qo_smos.Descriptors.{
  Fds, ConnectAddress, to_live_fd, run_syscall_new, fd_file, fd_epoll, run_syscall_socket,
  run_syscall_close, run_syscall_bind, run_syscall_listen, run_syscall_accept, run_syscall_connect,
  run_syscall_pipe,
}
use qo_smos.Calls.Arguments.{
  get_arg_count, check_arg_count, get_arg, get_s32, s32_arg, s64_bracketed_arg, ellipsis_arg,
  buffer_arg, family_arg, get_pipe_expression,
}

-- `enum syscall_state_t`
pub data SyscallState : Type 0 where
  syscall_idle syscall_enqueued syscall_running syscall_done syscall_exiting : SyscallState

-- What the system is asked for. A buffer is whether it is null and its size.
pub data LiveCall : Type 0 where
  live_socket : ℤ → ℤ → ℤ → LiveCall
  live_bind : ℤ → Sockaddr → LiveCall
  live_listen : ℤ → ℤ → LiveCall
  live_accept live_close : ℤ → LiveCall
  live_connect : ℤ → ConnectAddress → LiveCall
  live_read live_write : ℤ → Bool → ℤ → LiveCall
  live_recv live_send : ℤ → Bool → ℤ → ℤ → LiveCall
  live_sendto : ℤ → Bool → ℤ → ℤ → ConnectAddress → LiveCall
  live_fcntl : ℤ → ℤ → Option ℤ → LiveCall
  live_shutdown : ℤ → ℤ → LiveCall
  live_open : List ℕ → ℤ → LiveCall
  live_sendfile : ℤ → ℤ → ℤ → ℤ → LiveCall
  live_epoll_create : ℤ → LiveCall
  live_pipe : LiveCall

-- What the system answers: the result, `errno`, the time, and what it writes for accept() and pipe().
pub record Answer : Type 0 where
  pub result : ℤ
  pub errno : ℤ
  pub now_usecs : ℤ
  pub address : Sockaddr
  pub pair : ℤ × ℤ

pub record SyscallSpec : Type 0 where
  pub arguments : Expressions
  pub result : Expression
  pub error : Option (List ℕ)
  pub end_usecs : ℤ

-- The descriptors with the fields of `struct syscalls`, and all calls that the system was asked for.
pub record CallState : Type 0 where
  pub table : Fds
  pub syscalls : SyscallState
  pub live_end_usecs : ℤ
  pub calls : List LiveCall

unfoldable pub is_blocking : SyscallSpec → Bool
is_blocking spec = not (eq_ℤ spec.end_usecs minus_one)

abbrev pub enqueued_to_running : CallState → Fallible CallState
enqueued_to_running state = elim state.syscalls [
  | syscall_enqueued ↦ ok (record state { syscalls = syscall_running })
  | _ ↦ abort
]

unfoldable pub begin_syscall : CallState → SyscallSpec → Fallible CallState
unfolding is_blocking
begin_syscall state spec = if is_blocking spec then enqueued_to_running state else ok state

abbrev pub running_to_done : CallState → ℤ → Fallible CallState
running_to_done state now = elim state.syscalls [
  | syscall_running ↦ ok (record state { syscalls = syscall_done; live_end_usecs = now })
  | _ ↦ abort
]

pub data ResultCheck : Type 0 where
  check_exact check_fd : ResultCheck

abbrev pub is_check_fd : ResultCheck → Bool
is_check_fd check_fd = true
is_check_fd check_exact = false

abbrev pub agreed : Fallible (Unit {0})
agreed = ok tt

-- A result that need only be a descriptor, if the script has one, and otherwise the script's own.
abbrev pub compare_result : ResultCheck → ℤ → ℤ → Fallible (Unit {0})
compare_result mode expected actual =
    if is_check_fd mode && not (ltb_ℤ expected (pos 0))
    then if ltb_ℤ actual (pos 0) then err expected_non_negative else agreed
    else if eq_ℤ actual expected
    then agreed
    else err expected_result

abbrev pub compare_errno : Symbols → Option (List ℕ) → ℤ → Fallible (Unit {0})
compare_errno symbols none actual = agreed
compare_errno symbols (some macro) actual = do
  expected ← symbol_to_int symbols macro
  if eq_ℤ actual expected then agreed else err expected_errno

unfoldable pub check_result : Symbols → SyscallSpec → ResultCheck → Answer → Fallible (Unit {0})
unfolding get_s32 symbol_to_int
check_result symbols spec mode answer = do
  expected ← get_s32 spec.result
  matched ← compare_result mode expected answer.result
  compare_errno symbols spec.error answer.errno

unfoldable pub end_syscall :
    Symbols → CallState → SyscallSpec → ResultCheck → Answer → Fallible CallState
unfolding is_blocking check_result
end_syscall symbols state spec mode answer = do
  ended ← (if is_blocking spec then running_to_done state answer.now_usecs else ok state)
  checked ← check_result symbols spec mode answer
  ok ended

-- `malloc` fails for a size below zero, which is a very large `size_t`; other sizes are given.
unfoldable pub alloc_buffer : Bool → ℤ → Fallible (Unit {0})
alloc_buffer is_null count =
    if is_null then agreed else if ltb_ℤ count (pos 0) then abort else agreed

pub data SystemCall : Type 0 where
  call_socket call_bind call_listen call_accept call_connect call_read call_recv : SystemCall
  call_write call_send call_fcntl call_close call_shutdown call_open call_sendfile : SystemCall
  call_epoll_create call_pipe : SystemCall

abbrev string_of : Expression → Fallible (List ℕ)
string_of (string name) = ok name
string_of e = err bad_type

abbrev some_arg : Fallible ℤ → Fallible (Option ℤ)
some_arg arg = arg >>= λ n. ok (some n)

module _ (symbols : Symbols) (kernel : LiveCall → Answer) where
  -- From begin_syscall to end_syscall.
  unfoldable pub make_call :
      CallState → SyscallSpec → ResultCheck → LiveCall → Fallible (CallState × Answer)
  unfolding begin_syscall end_syscall
  make_call state spec mode call = do
    begun ← begin_syscall state spec
    let answer = kernel call
    let asked = record begun { calls = begun.calls ++ call ∷ [] }
    ended ← end_syscall symbols asked spec mode answer
    ok (ended, answer)

  -- A call that changes no descriptors.
  unfoldable pub plain_call : CallState → SyscallSpec → ResultCheck → LiveCall → Fallible CallState
  unfolding make_call
  plain_call state spec mode call = do made ← make_call state spec mode call; ok made.0

  -- A call whose result is a new descriptor, recorded by `record_fd`.
  unfoldable pub fd_call :
      CallState → SyscallSpec → LiveCall → (Fds → ℤ → Answer → Fallible Fds) → Fallible CallState
  unfolding make_call get_s32
  fd_call state spec call record_fd = do
    made ← make_call state spec check_fd call
    if ltb_ℤ made.1.result (pos 0) then ok made.0 else do
      script_fd ← get_s32 spec.result
      table ← record_fd made.0.table script_fd made.1
      ok (record made.0 { table = table })

  unfoldable pub syscall_socket : CallState → SyscallSpec → Expressions → Fallible CallState
  unfolding check_arg_count ellipsis_arg s32_arg fd_call run_syscall_socket
  syscall_socket state spec args = do
    count ← check_arg_count args 3
    dots ← ellipsis_arg args 0
    type ← s32_arg args 1
    protocol ← s32_arg args 2
    let domain = state.table.config.socket_domain
    fd_call state spec (live_socket domain type protocol) λ table script_fd answer.
        run_syscall_socket table domain type protocol script_fd answer.result

  unfoldable pub syscall_bind : CallState → SyscallSpec → Expressions → Fallible CallState
  unfolding check_arg_count s32_arg to_live_fd ellipsis_arg run_syscall_bind plain_call
  syscall_bind state spec args = do
    count ← check_arg_count args 3
    script_fd ← s32_arg args 0
    live_fd ← to_live_fd state.table script_fd
    dots ← ellipsis_arg args 1
    more_dots ← ellipsis_arg args 2
    plain_call state spec check_exact (live_bind live_fd (run_syscall_bind state.table))

  unfoldable pub syscall_listen : CallState → SyscallSpec → Expressions → Fallible CallState
  unfolding check_arg_count s32_arg to_live_fd make_call run_syscall_listen
  syscall_listen state spec args = do
    count ← check_arg_count args 2
    script_fd ← s32_arg args 0
    live_fd ← to_live_fd state.table script_fd
    backlog ← s32_arg args 1
    made ← make_call state spec check_exact (live_listen live_fd backlog)
    table ← run_syscall_listen made.0.table script_fd live_fd
    ok (record made.0 { table = table })

  unfoldable pub syscall_accept : CallState → SyscallSpec → Expressions → Fallible CallState
  unfolding check_arg_count s32_arg to_live_fd ellipsis_arg fd_call run_syscall_accept
  syscall_accept state spec args = do
    count ← check_arg_count args 3
    script_fd ← s32_arg args 0
    live_fd ← to_live_fd state.table script_fd
    dots ← ellipsis_arg args 1
    more_dots ← ellipsis_arg args 2
    fd_call state spec (live_accept live_fd) λ table accepted_fd answer.
        run_syscall_accept table accepted_fd answer.result answer.address

  unfoldable pub syscall_connect : CallState → SyscallSpec → Expressions → Fallible CallState
  unfolding check_arg_count s32_arg to_live_fd family_arg ellipsis_arg run_syscall_connect
      plain_call
  syscall_connect state spec args = do
    count ← check_arg_count args 3
    script_fd ← s32_arg args 0
    live_fd ← to_live_fd state.table script_fd
    sa_family ← family_arg args 1
    dots ← ellipsis_arg args 2
    connected ← run_syscall_connect state.table script_fd false sa_family
    plain_call (record state { table = connected.0 }) spec check_exact
        (live_connect live_fd connected.1)

  unfoldable pub syscall_read : CallState → SyscallSpec → Expressions → Fallible CallState
  unfolding check_arg_count s32_arg to_live_fd buffer_arg alloc_buffer plain_call
  syscall_read state spec args = do
    count_checked ← check_arg_count args 3
    script_fd ← s32_arg args 0
    live_fd ← to_live_fd state.table script_fd
    is_null ← buffer_arg args 1
    count ← s32_arg args 2
    buffer ← alloc_buffer is_null count
    plain_call state spec check_exact (live_read live_fd is_null count)

  unfoldable pub syscall_write : CallState → SyscallSpec → Expressions → Fallible CallState
  unfolding check_arg_count s32_arg to_live_fd buffer_arg alloc_buffer plain_call
  syscall_write state spec args = do
    count_checked ← check_arg_count args 3
    script_fd ← s32_arg args 0
    live_fd ← to_live_fd state.table script_fd
    is_null ← buffer_arg args 1
    count ← s32_arg args 2
    buffer ← alloc_buffer is_null count
    plain_call state spec check_exact (live_write live_fd is_null count)

  unfoldable pub syscall_recv : CallState → SyscallSpec → Expressions → Fallible CallState
  unfolding check_arg_count s32_arg to_live_fd buffer_arg alloc_buffer plain_call
  syscall_recv state spec args = do
    count_checked ← check_arg_count args 4
    script_fd ← s32_arg args 0
    live_fd ← to_live_fd state.table script_fd
    is_null ← buffer_arg args 1
    count ← s32_arg args 2
    flags ← s32_arg args 3
    buffer ← alloc_buffer is_null count
    plain_call state spec check_exact (live_recv live_fd is_null count flags)

  unfoldable pub syscall_send : CallState → SyscallSpec → Expressions → Fallible CallState
  unfolding check_arg_count s32_arg to_live_fd buffer_arg alloc_buffer plain_call
  syscall_send state spec args = do
    count_checked ← check_arg_count args 4
    script_fd ← s32_arg args 0
    live_fd ← to_live_fd state.table script_fd
    is_null ← buffer_arg args 1
    count ← s32_arg args 2
    flags ← s32_arg args 3
    buffer ← alloc_buffer is_null count
    plain_call state spec check_exact (live_send live_fd is_null count flags)

  unfoldable pub syscall_fcntl : CallState → SyscallSpec → Expressions → Fallible CallState
  unfolding get_arg_count s32_arg to_live_fd plain_call
  syscall_fcntl state spec args = do
    let count = get_arg_count args
    count_checked ← (if count == 2 || count == 3 then agreed else err wrong_arg_count)
    script_fd ← s32_arg args 0
    live_fd ← to_live_fd state.table script_fd
    command ← s32_arg args 1
    arg ← (if count == 2 then ok none else some_arg (s32_arg args 2))
    plain_call state spec check_exact (live_fcntl live_fd command arg)

  unfoldable pub syscall_close : CallState → SyscallSpec → Expressions → Fallible CallState
  unfolding check_arg_count s32_arg to_live_fd make_call run_syscall_close
  syscall_close state spec args = do
    count ← check_arg_count args 1
    script_fd ← s32_arg args 0
    live_fd ← to_live_fd state.table script_fd
    made ← make_call state spec check_exact (live_close live_fd)
    table ← run_syscall_close made.0.table script_fd live_fd
    ok (record made.0 { table = table })

  unfoldable pub syscall_shutdown : CallState → SyscallSpec → Expressions → Fallible CallState
  unfolding check_arg_count s32_arg to_live_fd plain_call
  syscall_shutdown state spec args = do
    count ← check_arg_count args 2
    script_fd ← s32_arg args 0
    live_fd ← to_live_fd state.table script_fd
    how ← s32_arg args 1
    plain_call state spec check_exact (live_shutdown live_fd how)

  unfoldable pub syscall_sendfile : CallState → SyscallSpec → Expressions → Fallible CallState
  unfolding check_arg_count s32_arg to_live_fd s64_bracketed_arg plain_call
  syscall_sendfile state spec args = do
    count_checked ← check_arg_count args 4
    script_outfd ← s32_arg args 0
    live_outfd ← to_live_fd state.table script_outfd
    script_infd ← s32_arg args 1
    live_infd ← to_live_fd state.table script_infd
    offset ← s64_bracketed_arg args 2
    count ← s32_arg args 3
    plain_call state spec check_exact (live_sendfile live_outfd live_infd offset count)

  unfoldable pub syscall_epoll_create : CallState → SyscallSpec → Expressions → Fallible CallState
  unfolding check_arg_count s32_arg fd_call run_syscall_new
  syscall_epoll_create state spec args = do
    count ← check_arg_count args 1
    size ← s32_arg args 0
    fd_call state spec (live_epoll_create size)
        λ table script_fd answer. run_syscall_new fd_epoll table script_fd answer.result

  unfoldable pub syscall_pipe : CallState → SyscallSpec → Expressions → Fallible CallState
  unfolding check_arg_count get_arg get_pipe_expression make_call run_syscall_pipe
  syscall_pipe state spec args = do
    count ← check_arg_count args 1
    pipe_expr ← get_arg args 0
    script ← get_pipe_expression pipe_expr
    made ← make_call state spec check_exact live_pipe
    if ltb_ℤ made.1.result (pos 0) then ok made.0 else do
      table ← run_syscall_pipe made.0.table script made.1.pair
      ok (record made.0 { table = table })

  unfoldable pub syscall_open : CallState → SyscallSpec → Expressions → Fallible CallState
  unfolding check_arg_count get_arg s32_arg fd_call run_syscall_new
  syscall_open state spec args = do
    count ← check_arg_count args 2
    name_expression ← get_arg args 0
    name ← string_of name_expression
    flags ← s32_arg args 1
    fd_call state spec (live_open name flags)
        λ table script_fd answer. run_syscall_new fd_file table script_fd answer.result

  -- Entries of `system_call_table`.
  unfoldable pub run_handler :
      SystemCall → CallState → SyscallSpec → Expressions → Fallible CallState
  unfolding syscall_socket syscall_bind syscall_listen syscall_accept syscall_connect syscall_read
      syscall_recv syscall_write syscall_send syscall_fcntl syscall_close syscall_shutdown
      syscall_open syscall_sendfile syscall_epoll_create syscall_pipe
  run_handler call_socket = syscall_socket
  run_handler call_bind = syscall_bind
  run_handler call_listen = syscall_listen
  run_handler call_accept = syscall_accept
  run_handler call_connect = syscall_connect
  run_handler call_read = syscall_read
  run_handler call_recv = syscall_recv
  run_handler call_write = syscall_write
  run_handler call_send = syscall_send
  run_handler call_fcntl = syscall_fcntl
  run_handler call_close = syscall_close
  run_handler call_shutdown = syscall_shutdown
  run_handler call_open = syscall_open
  run_handler call_sendfile = syscall_sendfile
  run_handler call_epoll_create = syscall_epoll_create
  run_handler call_pipe = syscall_pipe

  -- Once the time of the event has come and the entry of the table is found.
  unfoldable pub invoke_system_call : SystemCall → CallState → SyscallSpec → Fallible CallState
  unfolding run_handler evaluate_expression_list
  invoke_system_call call state spec = do
    args ← evaluate_expression_list symbols spec.arguments
    run_handler call state spec args
