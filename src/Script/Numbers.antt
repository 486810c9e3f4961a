-- ===== src/Script/Numbers.antt =====
-- Which expressions evaluate to a number, and to which.
use qo_smos.Prelude.{
  get_or, ◌*◌, ◌^◌, ◌+◌, Bool-cases, inl, inr, ℕ, ◌≡◌, refl, ◌↔◌, List, [], ◌∷◌, true, inl, inr,
  Bool-cases, arith,
}
use qo_smos.Prelude.Int.{ℤ}
use qo_smos.Script.Outcomes.{
  Fallible, ok, err, abort, ◌>>=◌, Returns, Returns-bind, Returns_any, left_not_integer,
  right_not_integer,
}
use qo_smos.Parser.Checks.{is_gre_supported}
use qo_smos.Script.{
  copy_gre, Expression, ellipsis, integer, word, string, gre, in6_addr, linger, socket_address_ipv4,
  socket_address_ipv6, mpls_stack, scm_timestamping, binary, list, iovec, msghdr, cmsg, pollfd,
  sock_extended_err, epollev, to, null, Symbols, strcmp_eq, or64, symbol_to_int, apply_binary,
  evaluate, evaluate_expression_list, unescape_cstring_expression,
}

-- A number, a symbol of it, or two such joined by `|`.
pub data Means (s : Symbols) : Expression → ℤ → Type 0 where
  number : (n : ℤ) → Means s (integer n) n
  symbol : (name : List ℕ) (n : ℤ) → symbol_to_int s name ≡ ok n → Means s (word name) n
  either :
      {lhs rhs : Expression} {a b : ℤ} (op : List ℕ)
      → strcmp_eq (b'|' ∷ []) op ≡ true
      → Means s lhs a
      → Means s rhs b
      → Means s (binary op lhs rhs) (or64 a b)

-- A number that is returned is what the expression means.
abbrev MeansNumber : Symbols → Expression → Expression → Type 0
MeansNumber s e (integer n) = Means s e n
MeansNumber s e _ = Unit

joined :
    (s : Symbols) (op : List ℕ) (l r : Expression)
    → strcmp_eq (b'|' ∷ []) op ≡ true
    → (lhs rhs : Expression) → MeansNumber s l lhs
    → MeansNumber s r rhs
    → Returns (MeansNumber s (binary op l r)) (elim lhs [
      | integer a ↦ elim rhs [ integer b ↦ ok (integer (or64 a b)) | _ ↦ err right_not_integer ]
      | _ ↦ err left_not_integer
    ])
joined s op l r flags (integer a) (integer b) hl hr = either op flags hl hr
joined s op l r flags (integer a) rhs hl hr = ground arith
joined s op l r flags lhs rhs hl hr = ground arith

apply_binary-MeansNumber :
    (s : Symbols) (op : List ℕ) (l r lhs rhs : Expression)
    → MeansNumber s l lhs
    → MeansNumber s r rhs
    → Returns (MeansNumber s (binary op l r)) (apply_binary op lhs rhs)
unfolding apply_binary
apply_binary-MeansNumber s op l r lhs rhs hl hr = elim (Bool-cases (strcmp_eq (b'|' ∷ []) op)) [
  | inl flags ↦ rw flags (joined s op l r flags lhs rhs hl hr)
  | inr other ↦ elim (Bool-cases (strcmp_eq (b'=' ∷ []) op)) [
    | inl equal ↦ rw (other, equal) tt
    | inr bad ↦ rw (other, bad) tt
  ]
]

named :
    (s : Symbols) (name : List ℕ) (m : Fallible ℤ)
    → symbol_to_int s name ≡ m
    → Returns (MeansNumber s (word name)) (m >>= λ n. ok (integer n))
named s name (ok n) h = symbol name n h
named s name (err e) h = tt
named s name abort h = tt

module _ (s : Symbols) (e : Expression) where
  skip :
      (m : Fallible Expression) (f : Expression → Fallible Expression)
      → ((a : Expression) → Returns (MeansNumber s e) (f a))
      → Returns (MeansNumber s e) (m >>= f)
  skip m f k = Returns_any (MeansNumber s e) m f k

returned : (s : Symbols) (e : Expression) → Returns (MeansNumber s e) (evaluate s e)
unfolding evaluate
returned s (binary op l r) =
    Returns-bind (MeansNumber s l) (MeansNumber s (binary op l r)) _ _ (returned s l) λ lhs hl.
      Returns-bind (MeansNumber s r) (MeansNumber s (binary op l r)) _ _ (returned s r)
        λ rhs hr. apply_binary-MeansNumber s op l r lhs rhs hl hr
returned s (word name) = named s name (symbol_to_int s name) refl
returned s (integer n) = number n
returned s (string text) =
    Returns_any (MeansNumber s (string text)) (unescape_cstring_expression text) _ (λ out. tt)
returned s (list es) =
    Returns_any (MeansNumber s (list es)) (evaluate_expression_list s es) _ (λ es'. tt)
returned s (iovec a b) =
    skip s (iovec a b) (evaluate s a) _ λ a'. skip s (iovec a b) (evaluate s b) _ λ b'. tt
returned s (cmsg a b c) =
    let q = cmsg a b c in
    skip s q (evaluate s a) _
      λ a'. skip s q (evaluate s b) _ λ b'. skip s q (evaluate s c) _ λ c'. tt
returned s (pollfd a b c) =
    let q = pollfd a b c in
    skip s q (evaluate s a) _
      λ a'. skip s q (evaluate s b) _ λ b'. skip s q (evaluate s c) _ λ c'. tt
returned s (msghdr a b c d e f) =
    let q = msghdr a b c d e f in
    skip s q (evaluate s a) _ λ a'. skip s q (evaluate s b) _ λ b'. skip s q (evaluate s c) _ λ c'.
      skip s q (evaluate s d) _
        λ d'. skip s q (evaluate s e) _ λ e'. skip s q (evaluate s f) _ λ f'. tt
returned s (sock_extended_err a b c d e f) =
    let q = sock_extended_err a b c d e f in
    skip s q (evaluate s a) _ λ a'. skip s q (evaluate s b) _ λ b'. skip s q (evaluate s c) _ λ c'.
      skip s q (evaluate s d) _
        λ d'. skip s q (evaluate s e) _ λ e'. skip s q (evaluate s f) _ λ f'. tt
returned s (epollev a (to e) p q r) =
    let v = epollev a (to e) p q r in
    skip s v (evaluate s a) _ λ a'. skip s v (evaluate s e) _ λ e'. tt
returned s (epollev a null (to e) q r) =
    let v = epollev a null (to e) q r in
    skip s v (evaluate s a) _ λ a'. skip s v (evaluate s e) _ λ e'. tt
returned s (epollev a null null (to e) r) =
    let v = epollev a null null (to e) r in
    skip s v (evaluate s a) _ λ a'. skip s v (evaluate s e) _ λ e'. tt
returned s (epollev a null null null (to e)) =
    let v = epollev a null null null (to e) in
    skip s v (evaluate s a) _ λ a'. skip s v (evaluate s e) _ λ e'. tt
returned s (epollev a null null null null) =
    skip s (epollev a null null null null) (evaluate s a) _ λ a'. tt
returned s ellipsis = tt
returned s (gre bytes) =
    elim (Bool-cases (is_gre_supported (get_or bytes 0 0 * 2 ^ 8 + get_or bytes 1 0))) [
      | inl supported ↦ rw (supported, copy_gre) tt
      | inr other ↦ rw (other, copy_gre) tt
    ]
returned s (in6_addr bytes) = tt
returned s (linger bytes) = tt
returned s (socket_address_ipv4 bytes) = tt
returned s (socket_address_ipv6 bytes) = tt
returned s (mpls_stack bytes) = tt
returned s (scm_timestamping bytes) = tt

evaluate_of_Means :
    (s : Symbols) (e : Expression) (n : ℤ) → Means s e n → evaluate s e ≡ ok (integer n)
unfolding evaluate apply_binary
evaluate_of_Means s _ _ (number n) = refl
evaluate_of_Means s _ _ (symbol name n h) = rw h
evaluate_of_Means s _ _ (either {lhs} {rhs} {a} {b} op flags l r) =
    rw (evaluate_of_Means s lhs a l, evaluate_of_Means s rhs b r, flags)

-- An expression evaluates to a number exactly when it is one, a known symbol for one, or the bitwise `or` by `|` of two such, which is then the number.
pub evaluate-exact :
    (s : Symbols) (e : Expression) (n : ℤ) → (evaluate s e ≡ ok (integer n)) ↔ Means s e n
evaluate-exact s e n = (λ h. let result = returned s e in rw h at result, evaluate_of_Means s e n)
