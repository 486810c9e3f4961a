-- ===== src/Script/Resolved.antt =====
-- What is left after the evaluation of a script's expressions.
use qo_smos.Prelude.{
  get_or, ◌*◌, ◌^◌, ◌+◌, ℕ, ◌≡◌, true, List, [], ◌∷◌, Bool-cases, inl, inr, arith,
}
use qo_smos.Script.Outcomes.{
  Fallible, ok, err, ◌>>=◌, Returns, Returns-bind, Returns_any, left_not_integer, right_not_integer,
}
use qo_smos.Parser.Checks.{is_gre_supported}
use qo_smos.Script.{
  copy_gre, Expression, Expressions, ellipsis, integer, word, string, gre, in6_addr, linger,
  socket_address_ipv4, socket_address_ipv6, mpls_stack, scm_timestamping, binary, list, iovec,
  msghdr, cmsg, pollfd, sock_extended_err, epollev, nil, cons, null, to, Symbols, strcmp_eq, or64,
  symbol_to_int, unescape_cstring_expression, apply_binary, evaluate, evaluate_expression_list,
}

-- No symbol and no operator but `=` is left, and an epoll event has one value.
abbrev mutual
  pub IsResolved : Expression → Type 0
  IsResolved (word name) = ⊥
  IsResolved (binary op lhs rhs) =
      (strcmp_eq (b'=' ∷ []) op ≡ true) × IsResolved lhs × IsResolved rhs
  IsResolved (list es) = AllResolved es
  IsResolved (iovec base len) = IsResolved base × IsResolved len
  IsResolved (msghdr name namelen iov iovlen control flags) =
      IsResolved name
      × IsResolved namelen
      × IsResolved iov
      × IsResolved iovlen
      × IsResolved control
      × IsResolved flags
  IsResolved (cmsg level type payload) = IsResolved level × IsResolved type × IsResolved payload
  IsResolved (sock_extended_err errno origin type code info payload) =
      IsResolved errno
      × IsResolved origin
      × IsResolved type
      × IsResolved code
      × IsResolved info
      × IsResolved payload
  IsResolved (pollfd fd events revents) = IsResolved fd × IsResolved events × IsResolved revents
  IsResolved (epollev events (to e) null null null) = IsResolved events × IsResolved e
  IsResolved (epollev events null (to e) null null) = IsResolved events × IsResolved e
  IsResolved (epollev events null null (to e) null) = IsResolved events × IsResolved e
  IsResolved (epollev events null null null (to e)) = IsResolved events × IsResolved e
  IsResolved (epollev events ptr fd u32 u64) = ⊥
  IsResolved _ = Unit

  pub AllResolved : Expressions → Type 0
  AllResolved nil = Unit
  AllResolved (cons e es) = IsResolved e × AllResolved es

or-IsResolved :
    (lhs rhs : Expression)
    → Returns IsResolved (elim lhs [
      | integer a ↦ elim rhs [ integer b ↦ ok (integer (or64 a b)) | _ ↦ err right_not_integer ]
      | _ ↦ err left_not_integer
    ])
or-IsResolved (integer a) (integer b) = tt
or-IsResolved (integer a) rhs = ground arith
or-IsResolved lhs rhs = ground arith

apply_binary-IsResolved :
    (op : List ℕ) (lhs rhs : Expression)
    → IsResolved lhs
    → IsResolved rhs
    → Returns IsResolved (apply_binary op lhs rhs)
unfolding apply_binary
apply_binary-IsResolved op lhs rhs hl hr = elim (Bool-cases (strcmp_eq (b'|' ∷ []) op)) [
  | inl flags ↦ rw flags (or-IsResolved lhs rhs)
  | inr other ↦ elim (Bool-cases (strcmp_eq (b'=' ∷ []) op)) [
    | inl equal ↦ rw (other, equal) (equal, hl, hr)
    | inr bad ↦ rw (other, bad) tt
  ]
]

next :
    (m : Fallible Expression) (f : Expression → Fallible Expression)
    → Returns IsResolved m
    → ((e : Expression) → IsResolved e → Returns IsResolved (f e))
    → Returns IsResolved (m >>= f)
next m f h k = Returns-bind IsResolved IsResolved m f h k

mutual
  unfolding evaluate

  evaluated : (s : Symbols) (e : Expression) → Returns IsResolved (evaluate s e)
  evaluated s (word name) = Returns_any IsResolved (symbol_to_int s name) _ (λ n. tt)
  evaluated s (string text) =
      Returns_any IsResolved (unescape_cstring_expression text) _ (λ out. tt)
  evaluated s (binary op lhs rhs) =
      next _ _ (evaluated s lhs)
        λ l hl. next _ _ (evaluated s rhs) λ r hr. apply_binary-IsResolved op l r hl hr
  evaluated s (list es) = Returns-bind AllResolved IsResolved _ _ (all_evaluated s es) λ es' h. h
  evaluated s (iovec a b) =
      next _ _ (evaluated s a) λ a' ha. next _ _ (evaluated s b) λ b' hb. (ha, hb)
  evaluated s (msghdr a b c d e f) = next _ _ (evaluated s a) λ a' ha.
      next _ _ (evaluated s b) λ b' hb. next _ _ (evaluated s c) λ c' hc.
        next _ _ (evaluated s d) λ d' hd.
          next _ _ (evaluated s e)
            λ e' he. next _ _ (evaluated s f) λ f' hf. (ha, hb, hc, hd, he, hf)
  evaluated s (cmsg a b c) =
      next _ _ (evaluated s a)
        λ a' ha. next _ _ (evaluated s b) λ b' hb. next _ _ (evaluated s c) λ c' hc. (ha, hb, hc)
  evaluated s (sock_extended_err a b c d e f) = next _ _ (evaluated s a) λ a' ha.
      next _ _ (evaluated s b) λ b' hb. next _ _ (evaluated s c) λ c' hc.
        next _ _ (evaluated s d) λ d' hd.
          next _ _ (evaluated s e)
            λ e' he. next _ _ (evaluated s f) λ f' hf. (ha, hb, hc, hd, he, hf)
  evaluated s (pollfd a b c) =
      next _ _ (evaluated s a)
        λ a' ha. next _ _ (evaluated s b) λ b' hb. next _ _ (evaluated s c) λ c' hc. (ha, hb, hc)
  evaluated s (epollev a (to e) _ _ _) =
      next _ _ (evaluated s a) λ a' ha. next _ _ (evaluated s e) λ e' he. (ha, he)
  evaluated s (epollev a null (to e) _ _) =
      next _ _ (evaluated s a) λ a' ha. next _ _ (evaluated s e) λ e' he. (ha, he)
  evaluated s (epollev a null null (to e) _) =
      next _ _ (evaluated s a) λ a' ha. next _ _ (evaluated s e) λ e' he. (ha, he)
  evaluated s (epollev a null null null (to e)) =
      next _ _ (evaluated s a) λ a' ha. next _ _ (evaluated s e) λ e' he. (ha, he)
  evaluated s (epollev a null null null null) = next _ _ (evaluated s a) λ a' ha. tt
  evaluated s ellipsis = tt
  evaluated s (integer n) = tt
  evaluated s (gre bytes) =
      elim (Bool-cases (is_gre_supported (get_or bytes 0 0 * 2 ^ 8 + get_or bytes 1 0))) [
        | inl supported ↦ rw (supported, copy_gre) tt
        | inr other ↦ rw (other, copy_gre) tt
      ]
  evaluated s (in6_addr bytes) = tt
  evaluated s (linger bytes) = tt
  evaluated s (socket_address_ipv4 bytes) = tt
  evaluated s (socket_address_ipv6 bytes) = tt
  evaluated s (mpls_stack bytes) = tt
  evaluated s (scm_timestamping bytes) = tt

  all_evaluated :
      (s : Symbols) (es : Expressions) → Returns AllResolved (evaluate_expression_list s es)
  all_evaluated s nil = tt
  all_evaluated s (cons e es) =
      Returns-bind IsResolved AllResolved _ _ (evaluated s e)
        λ e' h. Returns-bind AllResolved AllResolved _ _ (all_evaluated s es) λ es' hs. (h, hs)

-- Whatever evaluate_expression_list returns holds no symbol and no operator but `=`, to any depth, and one value in each epoll event.
pub evaluate_expression_list-IsResolved :
    (s : Symbols) (es : Expressions) → Returns AllResolved (evaluate_expression_list s es)
evaluate_expression_list-IsResolved s es = all_evaluated s es
