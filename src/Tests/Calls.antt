-- ===== src/Tests/Calls.antt =====
-- A run with a listening socket, an accepted one, and a file.
use qo_smos.Prelude.{◌≡◌, refl, false, List, [], ◌∷◌, ◌++◌, none, some, inr, if◌then◌else◌, arith}
use qo_smos.Prelude.Int.{ℤ, pos, negsuc, eq_ℤ}
use qo_smos.Address.{af_inet, IpAddress}
use qo_smos.Script.{integer, nil, cons, Symbols}
use qo_smos.Script.Outcomes.{ok, err, ◌>>=◌, Returns, duplicate_fd}
use qo_smos.Descriptors.{
  FdConfig, Fds, FdState, new_fd, new_socket, fd_socket, fd_file, run_syscall_socket,
  run_syscall_pipe,
}
use qo_smos.Descriptors.Table.{
  IsTable, live_of, found, found_live, IsOpened, run_syscall_socket-IsOpened,
}
use qo_smos.Calls.Handlers.{
  syscall_enqueued, LiveCall, live_close, check_exact, Answer, SyscallSpec, CallState, call_close,
  invoke_system_call, syscall_close, check_result,
}
use qo_smos.Calls.Handover.{IsHanded, invoke_system_call-IsHanded}
use qo_smos.Calls.Closing.{syscall_close_lem}
use qo_smos.Calls.Arguments.{get_s32}

abbrev ip : IpAddress
ip = record { family = af_inet; bytes = 192 ∷ 168 ∷ 0 ∷ 1 ∷ [] }

abbrev config : FdConfig
config = record {
  socket_domain = pos 2;
  live_bind_ip = ip;
  live_bind_port = 8080;
  live_connect_ip = ip;
  live_connect_port = 8080;
  live_local_ip = 192 ∷ 168 ∷ 0 ∷ 1 ∷ [];
  live_remote_ip = 192 ∷ 0 ∷ 2 ∷ 1 ∷ [];
  is_wire_client = false;
}

abbrev fds : List FdState
fds = new_fd fd_file (pos 4) (pos 9) new_socket ∷ new_fd fd_socket (pos 3) (pos 7) new_socket ∷ []

abbrev table : Fds
table = record { config = config; fds = fds; socket_under_test = some 0 }

fds-IsTable : IsTable fds
unfolding found found_live
fds-IsTable = (
  inr (inr (omega arith, omega arith, refl, refl)),
  (inr (inr (omega arith, omega arith, refl, refl)), tt),
)

run_syscall_socket-IsOpened_example :
    IsOpened fds (pos 5) (pos 8) (run_syscall_socket table (pos 2) (pos 1) (pos 6) (pos 5) (pos 8))
run_syscall_socket-IsOpened_example =
    run_syscall_socket-IsOpened table (pos 5) (pos 8) fds-IsTable (omega arith) (omega arith)
      (pos 2) (pos 1) (pos 6)

used_number : run_syscall_socket table (pos 2) (pos 1) (pos 6) (pos 4) (pos 8) ≡ err duplicate_fd
unfolding run_syscall_socket
used_number = refl

-- Both ends of a pipe can have one number, which then means the end that was recorded last.
one_number :
    (run_syscall_pipe table (pos 5, pos 5) (pos 10, pos 11) >>= λ piped.
    ok (live_of (pos 5) piped.fds))
    ≡ ok (some (pos 11))
unfolding run_syscall_pipe live_of found
one_number = refl

abbrev symbols : Symbols
symbols = record { cross_platform_symbols = []; platform_symbols = [] }

-- A system that closes everything.
abbrev closing : LiveCall → Answer
closing call = record {
  result = pos 0;
  errno = pos 0;
  now_usecs = pos 100;
  address = record { sa_family = af_inet; port = 0; addr = []; length = 16 };
  pair = (pos 0, pos 0);
}

abbrev close_spec : SyscallSpec
close_spec = record {
  arguments = cons (integer (pos 4)) nil;
  result = integer (pos 0);
  error = none;
  end_usecs = pos 200;
}

abbrev handed_over : CallState
handed_over = record {
  table = table;
  syscalls = syscall_enqueued;
  live_end_usecs = negsuc 0;
  calls = [];
}

invoke_system_call-IsHanded_example :
    Returns
      (IsHanded close_spec handed_over)
      (invoke_system_call symbols closing call_close handed_over close_spec)
invoke_system_call-IsHanded_example =
    invoke_system_call-IsHanded symbols closing call_close handed_over close_spec (λ h. refl)

four : get_s32 (integer (pos 4)) ≡ ok (pos 4)
unfolding get_s32
four = refl

nine : live_of (pos 4) fds ≡ some (pos 9)
unfolding live_of found
nine = refl

zero_expected : check_result symbols close_spec check_exact (closing (live_close (pos 9))) ≡ ok tt
unfolding check_result
zero_expected = refl

syscall_close_lem_example :
    (after : CallState) × (syscall_close symbols closing handed_over close_spec
        (cons (integer (pos 4)) nil)
      ≡ ok after)
    × (after.calls ≡ [] ++ live_close (pos 9) ∷ [])
    × IsTable after.table.fds
    × ((j : ℤ) → live_of j after.table.fds ≡ (if eq_ℤ (pos 4) j then none else live_of j fds))
syscall_close_lem_example =
    syscall_close_lem symbols closing handed_over close_spec (integer (pos 4)) (pos 4) fds-IsTable
      (omega arith) four (pos 9) nine (λ h. refl) zero_expected
