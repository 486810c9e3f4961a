-- ===== src/Script/Outcomes.antt =====
-- How the functions of app/src/main/cpp/script.c and run_system_call.c return: with STATUS_OK and a result, with STATUS_ERR and a message, or not at all.
use qo_smos.Prelude.{ℕ, List}

-- The messages of STATUS_ERR.
pub data Error : Type 0 where
  unknown_symbol : List ℕ → Error
  invalid_hex_escape unsupported_escape_code : Error
  left_not_integer right_not_integer bad_binary_operator : Error
  no_epoll_data : Error
  wrong_arg_count argument_list_too_short bad_type : Error
  value_out_of_range multiple_elements : Error
  neither_ellipsis_nor_null : Error
  unable_to_find_fd duplicate_fd duplicate_live_fd : Error
  invalid_socket_fd invalid_live_fd : Error
  unable_to_find_socket no_socket_for_accept socket_not_new : Error
  expected_non_negative expected_result expected_errno : Error
  not_two_descriptors nfds_mismatch expected_revents : Error
  unknown_system_call : Error

-- `abort` is a failed assert or an access through a null pointer.
pub data Fallible {ℓ} (A : Type ℓ) : Type ℓ where
  ok : A → Fallible A
  err : Error → Fallible A
  abort : Fallible A

infixl 5 ◌>>=◌
abbrev pub ◌>>=◌ {ℓ κ} : {A : Type ℓ} {B : Type κ} → Fallible A → (A → Fallible B) → Fallible B
ok a >>= f = f a
err e >>= f = err e
abort >>= f = abort

-- A property of what is returned, if anything is.
abbrev pub Returns {ℓ κ} : {A : Type ℓ} → (A → Type κ) → Fallible A → Type κ
Returns P (ok a) = P a
Returns P (err e) = Unit
Returns P abort = Unit

pub Returns-bind {ℓ κ ι ν} :
    {A : Type ℓ} {B : Type κ} (P : A → Type ι) (Q : B → Type ν) (m : Fallible A)
    (f : A → Fallible B)
    → Returns P m
    → ((a : A) → P a → Returns Q (f a))
    → Returns Q (m >>= f)
Returns-bind P Q (ok a) f h k = k a h
Returns-bind P Q (err e) f h k = tt
Returns-bind P Q abort f h k = tt

pub Returns_any {ℓ κ ν} :
    {A : Type ℓ} {B : Type κ} (Q : B → Type ν) (m : Fallible A) (f : A → Fallible B)
    → ((a : A) → Returns Q (f a))
    → Returns Q (m >>= f)
Returns_any Q (ok a) f k = k a
Returns_any Q (err e) f k = tt
Returns_any Q abort f k = tt
