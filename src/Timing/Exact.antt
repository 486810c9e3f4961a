-- ===== src/Timing/Exact.antt =====
-- When `verify_time` accepts, and the two conversions of times.
use qo_smos.Prelude.{Bool, true, ◌≢◌, if◌then◌else◌, ◌≡◌, refl, ◌↔◌, ◌⊎◌, inl, arith}
use qo_smos.Prelude.Int.{ℤ, ◌+ℤ◌, ◌-ℤ◌, ◌≤ℤ◌, int_laws}
use qo_smos.Timing.{
  TimeVerdict, TimeType, absolute_time, relative_time, any_time, absolute_range_time,
  relative_range_time, State, in_time, within, verify_time, script_time_to_live_time_usecs,
  live_time_to_script_time_usecs,
}

-- A live time that is converted to the script's time and back is unchanged, and so is a script time that is converted to a live one and back.
pub time_conversions_inverse :
    (state : State) (t : ℤ)
    → (script_time_to_live_time_usecs state (live_time_to_script_time_usecs state t) ≡ t)
      × (live_time_to_script_time_usecs state (script_time_to_live_time_usecs state t) ≡ t)
unfolding script_time_to_live_time_usecs live_time_to_script_time_usecs
time_conversions_inverse state t = (omega int_laws, omega int_laws)

-- The end of the accepted times: a range's own, else the time itself.
abbrev pub last_time_of : TimeType → ℤ → ℤ → ℤ
last_time_of absolute_range_time start stop = stop
last_time_of relative_range_time start stop = stop
last_time_of _ start stop = start

-- Live times that are no more than the tolerance outside the expected ones.
abbrev pub IsClose : State → ℤ → ℤ → ℤ → Type 0
IsClose state start stop live =
    (script_time_to_live_time_usecs state start ≤ℤ live +ℤ state.tolerance_usecs)
    × (live ≤ℤ script_time_to_live_time_usecs state stop +ℤ state.tolerance_usecs)

within_iff :
    (tolerance lo hi t : ℤ)
    → (within tolerance lo hi t ≡ true) ↔ ((lo -ℤ tolerance ≤ℤ t) × (t ≤ℤ hi +ℤ tolerance))
within_iff tolerance lo hi t = ground arith

within-IsClose :
    (state : State) (start stop live : ℤ)
    → (within state.tolerance_usecs
          (start -ℤ state.script_start_time_usecs)
          (stop -ℤ state.script_start_time_usecs)
          (live -ℤ state.live_start_time_usecs)
        ≡ true)
      ↔ IsClose state start stop live
unfolding script_time_to_live_time_usecs
within-IsClose state start stop live =
    let (to, from) =
      within_iff state.tolerance_usecs (start -ℤ state.script_start_time_usecs)
        (stop -ℤ state.script_start_time_usecs) (live -ℤ state.live_start_time_usecs) in
    (
      λ h. let (a, b) = to h in (omega int_laws, omega int_laws),
      λ h. from (omega int_laws, omega int_laws),
    )

passes :
    (b : Bool) (bad : TimeVerdict)
    → in_time ≢ bad
    → ((if b then in_time else bad) ≡ in_time) ↔ (b ≡ true)
passes b bad differs = ground arith

-- `verify_time` accepts an event exactly when its time is ANY_TIME or its live time is no more than the tolerance before the live time of its start and no more than the tolerance after that of its end, where only a range has an end of its own.
pub verify_time-exact :
    (state : State) (time_type : TimeType) (start stop live : ℤ)
    → (verify_time state time_type start stop live ≡ in_time)
      ↔ ((time_type ≡ any_time) ⊎ IsClose state start (last_time_of time_type start stop) live)
unfolding verify_time
verify_time-exact state any_time start stop live = (λ h. inl refl, λ h. refl)
verify_time-exact state absolute_time start stop live =
    let close = within-IsClose state start start live in ground arith
verify_time-exact state relative_time start stop live =
    let close = within-IsClose state start start live in ground arith
verify_time-exact state absolute_range_time start stop live =
    let close = within-IsClose state start stop live in ground arith
verify_time-exact state relative_range_time start stop live =
    let close = within-IsClose state start stop live in ground arith
