-- ===== src/Calls/Arguments.antt =====
-- The arguments of a system call, as run_system_call.c reads them from the evaluated expressions.
use qo_smos.Prelude.{ℕ, zero, suc, ◌-◌, ◌%◌, ◌^◌, Bool, true, false, ltb, ◌==◌, if◌then◌else◌}
use qo_smos.Prelude.Int.{ℤ, pos, negsuc, is_zero_ℤ}
use qo_smos.Script.{Expression, Expressions, ellipsis, integer, list, nil, cons}
use qo_smos.Script.Outcomes.{
  Fallible, ok, err, abort, ◌>>=◌, wrong_arg_count, argument_list_too_short, bad_type,
  value_out_of_range, multiple_elements, neither_ellipsis_nor_null, not_two_descriptors,
}

unfoldable pub get_arg_count : Expressions → ℕ
get_arg_count nil = 0
get_arg_count (cons e es) = suc (get_arg_count es)

unfoldable pub check_arg_count : Expressions → ℕ → Fallible (Unit {0})
unfolding get_arg_count
check_arg_count args expected =
    if get_arg_count args == expected then ok tt else err wrong_arg_count

unfoldable pub get_arg : Expressions → ℕ → Fallible Expression
get_arg nil index = err argument_list_too_short
get_arg (cons e es) zero = ok e
get_arg (cons e es) (suc index) = get_arg es index

-- The assignment of an `s64` to an `s32`, which takes it modulo 2^32.
unfoldable pub to_s32 : ℤ → ℤ
to_s32 (pos n) = let w = n % 2 ^ 32 in if ltb w (2 ^ 31) then pos w else negsuc (2 ^ 32 - 1 - w)
to_s32 (negsuc n) = let w = n % 2 ^ 32 in if ltb w (2 ^ 31) then negsuc w else pos (2 ^ 32 - 1 - w)

-- From INT_MIN to UINT_MAX.
abbrev pub is_32_bit : ℤ → Bool
is_32_bit (pos n) = ltb n (2 ^ 32)
is_32_bit (negsuc n) = ltb n (2 ^ 31)

unfoldable pub s32_of : ℤ → Fallible ℤ
unfolding to_s32
s32_of n = if is_32_bit n then ok (to_s32 n) else err value_out_of_range

unfoldable pub get_s32 : Expression → Fallible ℤ
unfolding s32_of
get_s32 (integer n) = s32_of n
get_s32 e = err bad_type

unfoldable pub get_s64 : Expression → Fallible ℤ
get_s64 (integer n) = ok n
get_s64 e = err bad_type

unfoldable pub s32_arg : Expressions → ℕ → Fallible ℤ
unfolding get_arg get_s32
s32_arg args index = do e ← get_arg args index; get_s32 e

unfoldable pub s64_arg : Expressions → ℕ → Fallible ℤ
unfolding get_arg get_s64
s64_arg args index = do e ← get_arg args index; get_s64 e

-- An argument that is a list of one element.
abbrev pub only_element : Expression → Fallible Expression
only_element (list (cons e nil)) = ok e
only_element (list es) = err multiple_elements
only_element e = err bad_type

unfoldable pub bracketed_arg : Expressions → ℕ → Fallible Expression
unfolding get_arg
bracketed_arg args index = do e ← get_arg args index; only_element e

unfoldable pub s32_bracketed_arg : Expressions → ℕ → Fallible ℤ
unfolding bracketed_arg get_s32
s32_bracketed_arg args index = do e ← bracketed_arg args index; get_s32 e

unfoldable pub s64_bracketed_arg : Expressions → ℕ → Fallible ℤ
unfolding bracketed_arg get_s64
s64_bracketed_arg args index = do e ← bracketed_arg args index; get_s64 e

abbrev pub is_ellipsis : Expression → Fallible (Unit {0})
is_ellipsis ellipsis = ok tt
is_ellipsis e = err bad_type

unfoldable pub ellipsis_arg : Expressions → ℕ → Fallible (Unit {0})
unfolding get_arg
ellipsis_arg args index = do e ← get_arg args index; is_ellipsis e

-- Whether the buffer is null.
abbrev pub is_null_buffer : Expression → Fallible Bool
is_null_buffer ellipsis = ok false
is_null_buffer (integer n) = if is_zero_ℤ n then ok true else err neither_ellipsis_nor_null
is_null_buffer e = err neither_ellipsis_nor_null

unfoldable pub buffer_arg : Expressions → ℕ → Fallible Bool
unfolding get_arg
buffer_arg args index = elim (get_arg args index) [
  | ok e ↦ is_null_buffer e
  | err e ↦ err neither_ellipsis_nor_null
  | abort ↦ abort
]

-- The address argument of connect() and sendto(): an ellipsis, which leaves -1, or a family.
unfoldable pub family_arg : Expressions → ℕ → Fallible ℤ
unfolding ellipsis_arg s32_arg
family_arg args index = elim (ellipsis_arg args index) [
  | ok dots ↦ ok (negsuc 0)
  | err e ↦ s32_arg args index
  | abort ↦ abort
]

-- An integer as an `int`.
abbrev pub int_of : Expression → Fallible ℤ
int_of (integer n) = ok (to_s32 n)
int_of e = err bad_type

-- The two descriptors of pipe(), which are not tested for the range of an `int`.
unfoldable pub get_pipe_expression : Expression → Fallible (ℤ × ℤ)
unfolding to_s32
get_pipe_expression (list (cons a (cons b nil))) = do
  first ← int_of a
  second ← int_of b
  ok (first, second)
get_pipe_expression (list es) = err not_two_descriptors
get_pipe_expression e = err bad_type
