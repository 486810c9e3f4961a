-- ===== src/Calls/Closing.antt =====
-- close() from the script's expression to the map of descriptors.
use qo_smos.Prelude.{◌≡◌, refl, [], ◌∷◌, ◌++◌, none, some, if◌then◌else◌, Bool-cases, inl, inr}
use qo_smos.Prelude.Int.{ℤ, pos, eq_ℤ, ◌≤ℤ◌}
use qo_smos.Script.{Expression, nil, cons, Symbols}
use qo_smos.Script.Outcomes.{Fallible, ok, err, abort, unable_to_find_fd}
use qo_smos.Descriptors.{Fds, run_syscall_close}
use qo_smos.Descriptors.Table.{
  IsTable, live_of, to_live_fd-live_of, IsClosed, run_syscall_close-IsClosed,
}
use qo_smos.Calls.Arguments.{get_s32, s32_arg, get_arg, check_arg_count}
use qo_smos.Calls.Handlers.{
  syscall_done, LiveCall, live_close, Answer, SyscallSpec, CallState, ResultCheck, check_exact,
  is_blocking, begin_syscall, end_syscall, check_result, make_call, syscall_close,
}
use qo_smos.Calls.Handover.{IsReady}

-- The state after a call whose result is the script's.
abbrev pub after_call : CallState → SyscallSpec → LiveCall → Answer → CallState
after_call state spec call answer = record state {
  syscalls = if is_blocking spec then syscall_done else state.syscalls;
  live_end_usecs = if is_blocking spec then answer.now_usecs else state.live_end_usecs;
  calls = state.calls ++ call ∷ [];
}

module _ (symbols : Symbols) (kernel : LiveCall → Answer) where
  pub make_call_lem :
      (state : CallState) (spec : SyscallSpec) (mode : ResultCheck) (call : LiveCall)
      → IsReady spec state
      → check_result symbols spec mode (kernel call) ≡ ok tt
      → make_call symbols kernel state spec mode call
        ≡ ok (after_call state spec call (kernel call), kernel call)
  unfolding make_call begin_syscall end_syscall
  make_call_lem state spec mode call ready h = elim (Bool-cases (is_blocking spec)) [
    | inl blocking ↦ rw (blocking, ready blocking, h) refl
    | inr other ↦ rw (other, h) refl
  ]

  module _ (state : CallState) (spec : SyscallSpec) (e : Expression) (s : ℤ)
      (t : IsTable state.table.fds) (not_negative : pos 0 ≤ℤ s) (number : get_s32 e ≡ ok s) where
    -- close() of a number that the script has not opened fails without a live call.
    pub syscall_close_unknown :
        live_of s state.table.fds ≡ none
        → syscall_close symbols kernel state spec (cons e nil) ≡ err unable_to_find_fd
    unfolding syscall_close s32_arg get_arg check_arg_count
    syscall_close_unknown h = rw (number, to_live_fd-live_of state.table s t not_negative, h) refl

    closed_call :
        (l : ℤ) (o : Fallible Fds)
        → run_syscall_close state.table s l ≡ o
        → IsClosed state.table.fds s l o
        → live_of s state.table.fds ≡ some l
        → IsReady spec state
        → check_result symbols spec check_exact (kernel (live_close l)) ≡ ok tt
        → (after : CallState) × (syscall_close symbols kernel state spec (cons e nil) ≡ ok after)
          × (after.calls ≡ state.calls ++ live_close l ∷ [])
          × IsTable after.table.fds
          × ((j : ℤ)
              → live_of j after.table.fds ≡ (if eq_ℤ s j then none else live_of j state.table.fds))
    unfolding syscall_close s32_arg get_arg check_arg_count
    closed_call l (ok table) p h known ready checked = (
      record (after_call state spec (live_close l) (kernel (live_close l))) { table = table },
      rw
          (
            number,
            to_live_fd-live_of state.table s t not_negative,
            known,
            make_call_lem state spec check_exact (live_close l) ready checked,
            p,
          )
          refl,
      refl,
      h.1,
      h.2,
    )
    closed_call l (err x) p h known ready checked = absurd (h known)
    closed_call l abort p h known ready checked = absurd h

    -- close() of an open number whose result is the script's makes one live call, with the live descriptor of that number, and takes the number and no other from the map.
    pub syscall_close_lem :
        (l : ℤ)
        → live_of s state.table.fds ≡ some l
        → IsReady spec state
        → check_result symbols spec check_exact (kernel (live_close l)) ≡ ok tt
        → (after : CallState) × (syscall_close symbols kernel state spec (cons e nil) ≡ ok after)
          × (after.calls ≡ state.calls ++ live_close l ∷ [])
          × IsTable after.table.fds
          × ((j : ℤ)
              → live_of j after.table.fds ≡ (if eq_ℤ s j then none else live_of j state.table.fds))
    syscall_close_lem l known ready checked =
        closed_call l (run_syscall_close state.table s l) refl
          (run_syscall_close-IsClosed state.table s l t not_negative) known ready checked
