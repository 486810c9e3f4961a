-- ===== src/Script.antt =====
-- Expressions of scripts in app/src/main/cpp/script.h and script.c: symbols, strings, and their evaluation to the arguments of system calls.
pub mod Outcomes
pub mod Resolved
pub mod Numbers
pub mod Escapes
use Prim.Native.Nat.{bit_or}
use qo_smos.Prelude.{
  get_or, ℕ, zero, suc, ◌+◌, ◌-◌, ◌*◌, ◌/◌, ◌%◌, ◌^◌, Bool, true, false, ◌&&◌, ◌||◌, List, [], ◌∷◌,
  ◌++◌, Option, none, some, ltb, leb, ◌==◌, if◌then◌else◌,
}
use qo_smos.Prelude.Int.{ℤ, pos, negsuc}
use qo_smos.Parser.Checks.{is_gre_supported}
use qo_smos.Script.Outcomes.{
  Fallible, ok, err, abort, ◌>>=◌, unknown_symbol, invalid_hex_escape, unsupported_escape_code,
  left_not_integer, right_not_integer, bad_binary_operator, no_epoll_data,
}

-- `struct expression` with its type. A text is the list of its bytes without the last zero, and what
-- is copied as it is, the list of its bytes. A `Pointer` may be null.
mutual
  pub data Expression : Type 0 where
    ellipsis : Expression
    integer : ℤ → Expression
    word string : List ℕ → Expression
    gre in6_addr linger socket_address_ipv4 socket_address_ipv6 : List ℕ → Expression
    mpls_stack scm_timestamping : List ℕ → Expression
    binary : List ℕ → Expression → Expression → Expression
    list : Expressions → Expression
    iovec : Expression → Expression → Expression
    msghdr :
        Expression → Expression → Expression → Expression → Expression → Expression → Expression
    cmsg pollfd : Expression → Expression → Expression → Expression
    sock_extended_err :
        Expression → Expression → Expression → Expression → Expression → Expression → Expression
    epollev : Expression → Pointer → Pointer → Pointer → Pointer → Expression

  pub data Expressions : Type 0 where
    nil : Expressions
    cons : Expression → Expressions → Expressions

  pub data Pointer : Type 0 where
    null : Pointer
    to : Expression → Pointer

unfoldable pub strcmp_eq : List ℕ → List ℕ → Bool
strcmp_eq [] [] = true
strcmp_eq (x ∷ xs) (y ∷ ys) = (x == y) && strcmp_eq xs ys
strcmp_eq xs ys = false

-- `struct int_symbol`; the values of the tables are those of the system's headers.
abbrev pub IntSymbol : Type 0
IntSymbol = List ℕ × ℤ

unfoldable pub lookup_int_symbol : List ℕ → List IntSymbol → Option ℤ
unfolding strcmp_eq
lookup_int_symbol name [] = none
lookup_int_symbol name ((symbol, value) ∷ symbols) =
    if strcmp_eq name symbol then some value else lookup_int_symbol name symbols

-- The cross-platform table and the platform's.
pub record Symbols : Type 0 where
  pub cross_platform_symbols : List IntSymbol
  pub platform_symbols : List IntSymbol

unfoldable pub symbol_to_int : Symbols → List ℕ → Fallible ℤ
unfolding lookup_int_symbol
symbol_to_int symbols name = elim (lookup_int_symbol name symbols.cross_platform_symbols) [
  | some value ↦ ok value
  | none ↦ elim (lookup_int_symbol name symbols.platform_symbols) [
    | some value ↦ ok value
    | none ↦ err (unknown_symbol name)
  ]
]

-- The 64-bit pattern of an `s64`, and back.
unfoldable pub to_word : ℤ → ℕ
to_word (pos n) = n % 2 ^ 64
to_word (negsuc n) = 2 ^ 64 - 1 - n % 2 ^ 64

unfoldable pub of_word : ℕ → ℤ
of_word w = if ltb w (2 ^ 63) then pos w else negsuc (2 ^ 64 - 1 - w)

unfoldable pub or64 : ℤ → ℤ → ℤ
unfolding to_word of_word
or64 a b = of_word (bit_or (to_word a) (to_word b))

abbrev pub put : ℕ → Fallible (List ℕ) → Fallible (List ℕ)
put c rest = rest >>= λ out. ok (c ∷ out)

unfoldable pub hex_digit : ℕ → Option ℕ
hex_digit c =
    if leb b'0' c && leb c b'9'
    then some (c - b'0')
    else if leb b'a' c && leb c b'f'
    then some (c - b'a' + 10)
    else if leb b'A' c && leb c b'F'
    then some (c - b'A' + 10)
    else none

-- `strtol` in base 16 on two bytes, as a byte, if it takes both: a sign or a blank may be the first.
unfoldable pub strtol_byte : ℕ → ℕ → Option ℕ
unfolding hex_digit
strtol_byte a b = elim (hex_digit b) [
  | none ↦ none
  | some low ↦ elim (hex_digit a) [
    | some high ↦ some (high * 16 + low)
    | none ↦
        if a == b'-'
        then some ((256 - low) % 256)
        else if a == b'+' || a == b' ' || (leb 9 a && leb a 13)
        then some low
        else none
  ]
]

-- What the escape code of one letter writes: the cases of the switch fall through to the next.
unfoldable pub escape_code : ℕ → Option ℕ
escape_code c =
    if c == b'\\' || c == b'"' || c == b'f'
    then some 12
    else if c == b'n'
    then some 10
    else if c == b'r'
    then some 13
    else if c == b't'
    then some 9
    else if c == b'v'
    then some 11
    else none

-- The bytes that the loop over the string writes.
unfoldable pub unescape_cstring_expression : List ℕ → Fallible (List ℕ)
unfolding escape_code strtol_byte
unescape_cstring_expression [] = ok []
unescape_cstring_expression (c ∷ []) =
    if c == b'\\' then err unsupported_escape_code else ok (c ∷ [])
unescape_cstring_expression (c ∷ d ∷ []) = elim (c == b'\\') [
  | true ↦
      if d == b'x'
      then err invalid_hex_escape
      else elim (escape_code d) [ none ↦ err unsupported_escape_code | some out ↦ ok (out ∷ []) ]
  | false ↦ put c (unescape_cstring_expression (d ∷ []))
]
unescape_cstring_expression (c ∷ d ∷ e ∷ []) = elim (c == b'\\') [
  | true ↦ if d == b'x' then err invalid_hex_escape else elim (escape_code d) [
    | none ↦ err unsupported_escape_code
    | some out ↦ put out (unescape_cstring_expression (e ∷ []))
  ]
  | false ↦ put c (unescape_cstring_expression (d ∷ e ∷ []))
]
unescape_cstring_expression (c ∷ d ∷ e ∷ f ∷ rest) = elim (c == b'\\') [
  | true ↦
      if d == b'x'
      then elim (strtol_byte e f) [
        | none ↦ err invalid_hex_escape
        | some out ↦ put out (unescape_cstring_expression rest)
      ]
      else elim (escape_code d) [
        | none ↦ err unsupported_escape_code
        | some out ↦ put out (unescape_cstring_expression (e ∷ f ∷ rest))
      ]
  | false ↦ put c (unescape_cstring_expression (d ∷ e ∷ f ∷ rest))
]

-- Once both sides of a binary expression are evaluated.
unfoldable pub apply_binary : List ℕ → Expression → Expression → Fallible Expression
unfolding strcmp_eq or64
apply_binary op lhs rhs =
    if strcmp_eq (b'|' ∷ []) op
    then elim lhs [
      | integer a ↦ elim rhs [ integer b ↦ ok (integer (or64 a b)) | _ ↦ err right_not_integer ]
      | _ ↦ err left_not_integer
    ]
    else if strcmp_eq (b'=' ∷ []) op
    then ok (binary op lhs rhs)
    else err bad_binary_operator

-- The copy of a GRE header, whose asserts are those of `gre_len`.
unfoldable pub copy_gre : List ℕ → Fallible Expression
copy_gre bytes =
    if is_gre_supported (get_or bytes 0 0 * 2 ^ 8 + get_or bytes 1 0) then ok (gre bytes) else abort

unfoldable mutual
  unfolding copy_gre symbol_to_int unescape_cstring_expression apply_binary

  pub evaluate : Symbols → Expression → Fallible Expression
  evaluate s (word name) = do value ← symbol_to_int s name; ok (integer value)
  evaluate s (string text) = do out ← unescape_cstring_expression text; ok (string out)
  evaluate s (binary op lhs rhs) = do
    lhs' ← evaluate s lhs
    rhs' ← evaluate s rhs
    apply_binary op lhs' rhs'
  evaluate s (list es) = do es' ← evaluate_expression_list s es; ok (list es')
  evaluate s (iovec base len) = do
    base' ← evaluate s base
    len' ← evaluate s len
    ok (iovec base' len')
  evaluate s (msghdr name namelen iov iovlen control flags) = do
    name' ← evaluate s name
    namelen' ← evaluate s namelen
    iov' ← evaluate s iov
    iovlen' ← evaluate s iovlen
    control' ← evaluate s control
    flags' ← evaluate s flags
    ok (msghdr name' namelen' iov' iovlen' control' flags')
  evaluate s (cmsg level type payload) = do
    level' ← evaluate s level
    type' ← evaluate s type
    payload' ← evaluate s payload
    ok (cmsg level' type' payload')
  evaluate s (sock_extended_err errno origin type code info payload) = do
    errno' ← evaluate s errno
    origin' ← evaluate s origin
    type' ← evaluate s type
    code' ← evaluate s code
    info' ← evaluate s info
    payload' ← evaluate s payload
    ok (sock_extended_err errno' origin' type' code' info' payload')
  evaluate s (pollfd fd events revents) = do
    fd' ← evaluate s fd
    events' ← evaluate s events
    revents' ← evaluate s revents
    ok (pollfd fd' events' revents')
  -- The first pointer that is not null is evaluated, and the others stay null in the copy.
  evaluate s (epollev events (to e) fd u32 u64) = do
    events' ← evaluate s events
    e' ← evaluate s e
    ok (epollev events' (to e') null null null)
  evaluate s (epollev events null (to e) u32 u64) = do
    events' ← evaluate s events
    e' ← evaluate s e
    ok (epollev events' null (to e') null null)
  evaluate s (epollev events null null (to e) u64) = do
    events' ← evaluate s events
    e' ← evaluate s e
    ok (epollev events' null null (to e') null)
  evaluate s (epollev events null null null (to e)) = do
    events' ← evaluate s events
    e' ← evaluate s e
    ok (epollev events' null null null (to e'))
  evaluate s (epollev events null null null null) = do
    events' ← evaluate s events
    err no_epoll_data
  evaluate s ellipsis = ok ellipsis
  evaluate s (integer n) = ok (integer n)
  evaluate s (gre bytes) = copy_gre bytes
  evaluate s (in6_addr bytes) = ok (in6_addr bytes)
  evaluate s (linger bytes) = ok (linger bytes)
  evaluate s (socket_address_ipv4 bytes) = ok (socket_address_ipv4 bytes)
  evaluate s (socket_address_ipv6 bytes) = ok (socket_address_ipv6 bytes)
  evaluate s (mpls_stack bytes) = ok (mpls_stack bytes)
  evaluate s (scm_timestamping bytes) = ok (scm_timestamping bytes)

  pub evaluate_expression_list : Symbols → Expressions → Fallible Expressions
  evaluate_expression_list s nil = ok nil
  evaluate_expression_list s (cons e es) = do
    e' ← evaluate s e
    es' ← evaluate_expression_list s es
    ok (cons e' es')
