-- ===== src/Packet/Copy/Finishing.antt =====
-- What finishing makes of headers: their totals nest.
use qo_smos.Prelude.{
  zero, not, ◌||◌, ◌%◌, ◌<◌, set, ℕ, suc, ◌+◌, ◌*◌, ◌^◌, ◌≤◌, ◌≡◌, refl, sym, ◌∙◌, Bool, true,
  false, List, [], ◌∷◌, Option, none, some, arith, ltb, length, get_or, length-set,
}
use mathlib.Core.Path.{subst}
use qo_smos.Packet.{
  HeaderType, header_ipv4, header_ipv6, header_gre, header_mpls, header_tcp, header_udp,
  header_icmpv4, header_icmpv6, Header,
}
use qo_smos.Packet.Append.{Contiguous}
use qo_smos.Checksum.Fill.{put16}
use qo_smos.Parser.Checks.{gre_len, is_gre_supported}
use qo_smos.Packet.Copy.{
  put_be16, gre_flags_at, ipv4_header_finish, ipv6_header_finish, gre_header_finish,
  mpls_header_finish, finish, finish_outer, packet_finish_encapsulation_headers,
}

-- A header of a type counts what is in the next one, under its own bytes; from layer 4 on nothing is nested.
abbrev pub WrapsAs : HeaderType → Header → Header → Type 0
WrapsAs header_ipv4 h next = h.total_bytes ≡ 20 + next.total_bytes
WrapsAs header_ipv6 h next = h.total_bytes ≡ 40 + next.total_bytes
WrapsAs header_gre h next = h.total_bytes ≡ h.header_bytes + next.total_bytes
WrapsAs header_mpls h next = h.total_bytes ≡ h.header_bytes + next.total_bytes
WrapsAs _ h next = Unit

abbrev pub Nested : List Header → Type 0
Nested [] = Unit
Nested (h ∷ []) = Unit
Nested (h ∷ g ∷ hs) = WrapsAs h.type h g × Nested (g ∷ hs)

-- The bytes that a header adds at most to the one inside.
abbrev pub weight : HeaderType → Header → ℕ
weight header_ipv4 h = 20
weight header_ipv6 h = 40
weight header_gre h = 16
weight header_mpls h = h.header_bytes
weight _ h = h.total_bytes

abbrev pub most_bytes : List Header → ℕ
most_bytes [] = 0
most_bytes (h ∷ []) = h.total_bytes
most_bytes (h ∷ g ∷ hs) = weight h.type h + most_bytes (g ∷ hs)

abbrev pub is_layer4 : HeaderType → Bool
is_layer4 header_tcp = true
is_layer4 header_udp = true
is_layer4 header_icmpv4 = true
is_layer4 header_icmpv6 = true
is_layer4 _ = false

-- The innermost header is one of layer 4.
abbrev pub IsClosed : List Header → Type 0
IsClosed [] = ⊥
IsClosed (h ∷ []) = is_layer4 h.type ≡ true
IsClosed (h ∷ g ∷ hs) = IsClosed (g ∷ hs)

-- A header whose bytes are in the buffer: what is read and written of it, with the IPv4 header whole; and a GRE
-- header is one of version 0 without routing, as long as its flags say.
abbrev pub FitsAs : HeaderType → List ℕ → Header → Type 0
FitsAs header_ipv4 buffer h =
    (20 ≤ h.header_bytes)
    × (h.ptr + 12 ≤ length buffer)
    × (h.ptr + get_or buffer h.ptr 0 % 2 ^ 4 * 4 ≤ length buffer)
FitsAs header_ipv6 buffer h = (40 ≤ h.header_bytes) × (h.ptr + 7 ≤ length buffer)
FitsAs header_gre buffer h =
    (h.ptr + 4 ≤ length buffer)
    × (is_gre_supported (gre_flags_at buffer h.ptr) ≡ true)
    × (h.header_bytes ≡ gre_len (gre_flags_at buffer h.ptr))
FitsAs _ buffer h = Unit

abbrev pub AllFit : List ℕ → List Header → Type 0
AllFit buffer [] = Unit
AllFit buffer (h ∷ hs) = FitsAs h.type buffer h × AllFit buffer hs

-- The bytes before a place are the same.
abbrev pub SameBelow : ℕ → List ℕ → List ℕ → Type 0
SameBelow p xs ys = (i : ℕ) → i < p → get_or ys i 0 ≡ get_or xs i 0

other_place : (xs : List ℕ) (q i v : ℕ) → i < q → get_or (set xs q v) i 0 ≡ get_or xs i 0
other_place [] q i v h = refl
other_place (x ∷ xs) zero i v h = absurd (omega arith)
other_place (x ∷ xs) (suc q) zero v h = refl
other_place (x ∷ xs) (suc q) (suc i) v h = other_place xs q i v (omega arith)

set-SameBelow :
    (p : ℕ) (xs ys : List ℕ) (q v : ℕ) → p ≤ q → SameBelow p xs ys → SameBelow p xs (set ys q v)
set-SameBelow p xs ys q v far same i i_lt = other_place ys q i v (omega arith) ∙ same i i_lt

record FinishedAs (buffer : List ℕ) (h next : Header) (t : HeaderType)
    (o : Option (List ℕ × Header)) : Type 0 where
  buffer' : List ℕ
  h' : Header
  done : o ≡ some (buffer', h')
  size : length buffer' ≡ length buffer
  type : h'.type ≡ h.type
  header_bytes : h'.header_bytes ≡ h.header_bytes
  ptr : h'.ptr ≡ h.ptr
  wraps : WrapsAs t h' next
  bound : h'.total_bytes ≤ weight t h + next.total_bytes
  below : SameBelow h.ptr buffer buffer'

gre_len_bounds : (flags : ℕ) → (4 ≤ gre_len flags) × (gre_len flags ≤ 16)
unfolding gre_len
gre_len_bounds flags = ground arith

inside_ipv6 : (n size a : ℕ) → n ≤ 65535 → a ≤ size → (ltb 0xffff n || ltb size a) ≡ false
inside_ipv6 n size a h k = ground arith

inside_gre :
    (flags size a : ℕ)
    → a ≤ size
    → is_gre_supported flags ≡ true
    → (ltb size a || not (is_gre_supported flags)) ≡ false
inside_gre flags size a h k = ground (arith, h, k)

layer4_wraps : (t : HeaderType) (h next : Header) → is_layer4 t ≡ true → WrapsAs t h next
layer4_wraps header_tcp h next e = tt
layer4_wraps header_udp h next e = tt
layer4_wraps header_icmpv4 h next e = tt
layer4_wraps header_icmpv6 h next e = tt
layer4_wraps header_ipv4 h next e = absurd (ground arith)
layer4_wraps header_ipv6 h next e = absurd (ground arith)
layer4_wraps header_gre h next e = absurd (ground arith)
layer4_wraps header_mpls h next e = absurd (ground arith)

layer4_bound :
    (t : HeaderType) (h next : Header)
    → is_layer4 t ≡ true
    → h.total_bytes ≤ weight t h + next.total_bytes
layer4_bound t h next e = ground arith

-- A finished header is the header with a total, in a buffer of the same size.
with_total :
    (buffer : List ℕ) (h next : Header) (t : HeaderType) (buffer' : List ℕ) (total : ℕ)
    {o : Option (List ℕ × Header)}
    → o ≡ some (buffer', record h { total_bytes = total })
    → length buffer' ≡ length buffer
    → WrapsAs t (record h { total_bytes = total }) next
    → total ≤ weight t h + next.total_bytes
    → SameBelow h.ptr buffer buffer'
    → FinishedAs buffer h next t o
with_total buffer h next t buffer' total done size wraps bound below = record {
  buffer' = buffer';
  h' = record h { total_bytes = total };
  done = done;
  size = size;
  type = refl;
  header_bytes = refl;
  ptr = refl;
  wraps = wraps;
  bound = bound;
  below = below;
}

unchanged :
    (buffer : List ℕ) (h next : Header) (t : HeaderType)
    → finish buffer h (some next) t ≡ some (buffer, h)
    → is_layer4 t ≡ true
    → FinishedAs buffer h next t (finish buffer h (some next) t)
unchanged buffer h next t e layer =
    with_total buffer h next t buffer h.total_bytes e refl (layer4_wraps t h next layer)
      (layer4_bound t h next layer) (λ i i_lt. refl)

-- Two bytes behind a place.
put_be16-SameBelow :
    (p : ℕ) (xs ys : List ℕ) (q v : ℕ)
    → p ≤ q
    → SameBelow p xs ys
    → SameBelow p xs (put_be16 ys q v)
put_be16-SameBelow p xs ys q v far same =
    set-SameBelow p xs _ (q + 1) _ (omega arith) (set-SameBelow p xs ys q _ far same)

put16-SameBelow :
    (p : ℕ) (xs ys : List ℕ) (q v : ℕ) → p ≤ q → SameBelow p xs ys → SameBelow p xs (put16 ys q v)
unfolding put16
put16-SameBelow p xs ys q v far same =
    set-SameBelow p xs _ (q + 1) _ (omega arith) (set-SameBelow p xs ys q _ far same)

inside : (n a b : ℕ) → a ≤ n → b ≤ n → (ltb n a || ltb n b) ≡ false
inside n a b ha hb = ground arith

finish-FinishedAs :
    (buffer : List ℕ) (h next : Header) (t : HeaderType)
    → FitsAs t buffer h
    → next.total_bytes ≤ 65535
    → FinishedAs buffer h next t (finish buffer h (some next) t)
unfolding finish ipv4_header_finish ipv6_header_finish gre_header_finish mpls_header_finish
finish-FinishedAs buffer h next header_ipv4 (long, fields, whole) small =
    let p = h.ptr in
    rw (inside (length buffer) (p + 12) (p + get_or buffer p 0 % 2 ^ 4 * 4) fields whole) (
      with_total buffer h next header_ipv4 _ _ refl (simp (put16, length-set)) refl (omega arith) (
        put16-SameBelow p buffer _ (p + 10) _ (omega arith) (
          put16-SameBelow p buffer _ (p + 10) 0 (omega arith) (
            set-SameBelow p buffer _ (p + 9) _ (omega arith)
              (put_be16-SameBelow p buffer buffer (p + 2) _ (omega arith) (λ i i_lt. refl))))))
finish-FinishedAs buffer h next header_ipv6 (long, fields) small =
    let p = h.ptr in
    rw (inside_ipv6 next.total_bytes (length buffer) (p + 7) small fields) (
      with_total buffer h next header_ipv6 _ _ refl (simp length-set) refl (omega arith) (
        set-SameBelow p buffer _ (p + 6) _ (omega arith)
          (put_be16-SameBelow p buffer buffer (p + 4) _ (omega arith) (λ i i_lt. refl))))
finish-FinishedAs buffer h next header_gre (fields, supported, length_is) small =
    let p = h.ptr in
    let flags = gre_flags_at buffer p in
    let len = gre_len_bounds flags in
    rw (inside_gre flags (length buffer) (p + 4) fields supported) (
      with_total buffer h next header_gre _ _ refl (simp length-set) (omega (arith, length_is))
        (omega (arith, len))
        (put_be16-SameBelow p buffer buffer (p + 2) _ (omega arith) (λ i i_lt. refl)))
finish-FinishedAs buffer h next header_mpls fits small =
    with_total buffer h next header_mpls _ _ refl refl refl (omega arith) (λ i i_lt. refl)
finish-FinishedAs buffer h next header_tcp fits small = unchanged buffer h next header_tcp refl refl
finish-FinishedAs buffer h next header_udp fits small = unchanged buffer h next header_udp refl refl
finish-FinishedAs buffer h next header_icmpv4 fits small =
    unchanged buffer h next header_icmpv4 refl refl
finish-FinishedAs buffer h next header_icmpv6 fits small =
    unchanged buffer h next header_icmpv6 refl refl

-- What the loop makes of headers.
pub record Finished (buffer : List ℕ) (hs : List Header) (o : Option (List ℕ × List Header))
    : Type 0 where
  pub buffer' : List ℕ
  pub first : Header
  pub rest : List Header
  pub done : o ≡ some (buffer', first ∷ rest)
  pub size : length buffer' ≡ length buffer
  pub count : suc (length rest) ≡ length hs
  pub places : (start stop : ℕ) → Contiguous start hs stop → Contiguous start (first ∷ rest) stop
  pub nested : Nested (first ∷ rest)
  pub bound : first.total_bytes ≤ most_bytes hs
  pub below : (start stop : ℕ) → Contiguous start hs stop → SameBelow start buffer buffer'

innermost :
    (buffer : List ℕ) (h : Header) (t : HeaderType)
    → is_layer4 t ≡ true
    → finish buffer h none t ≡ some (buffer, h)
unfolding finish
innermost buffer h header_tcp e = refl
innermost buffer h header_udp e = refl
innermost buffer h header_icmpv4 e = refl
innermost buffer h header_icmpv6 e = refl
innermost buffer h header_ipv4 e = absurd (ground arith)
innermost buffer h header_ipv6 e = absurd (ground arith)
innermost buffer h header_gre e = absurd (ground arith)
innermost buffer h header_mpls e = absurd (ground arith)

-- What a header reads of the buffer is kept where only bytes behind it change.
FitsAs-kept :
    (t : HeaderType) (buffer buffer' : List ℕ) (h : Header)
    → length buffer' ≡ length buffer
    → SameBelow (h.ptr + h.header_bytes) buffer buffer'
    → FitsAs t buffer h
    → FitsAs t buffer' h
FitsAs-kept header_ipv4 buffer buffer' h size same (long, fields, whole) =
    (long, omega (arith, size, fields), rw (same h.ptr (omega arith), size) whole)
FitsAs-kept header_ipv6 buffer buffer' h size same (long, fields) =
    (long, omega (arith, size, fields))
FitsAs-kept header_gre buffer buffer' h size same (fields, supported, length_is) =
    let len = gre_len_bounds (gre_flags_at buffer h.ptr) in
    let flags : gre_flags_at buffer' h.ptr ≡ gre_flags_at buffer h.ptr =
      rw
        (
          same h.ptr (omega (arith, length_is, len)),
          same (h.ptr + 1) (omega (arith, length_is, len)),
        )
        refl in
    (omega (arith, size, fields), rw flags supported, rw flags length_is)
FitsAs-kept header_mpls buffer buffer' h size same fits = tt
FitsAs-kept header_tcp buffer buffer' h size same fits = tt
FitsAs-kept header_udp buffer buffer' h size same fits = tt
FitsAs-kept header_icmpv4 buffer buffer' h size same fits = tt
FitsAs-kept header_icmpv6 buffer buffer' h size same fits = tt

outer-Finished :
    (buffer : List ℕ) (h g : Header) (hs : List Header) (o : Option (List ℕ × List Header))
    (start stop : ℕ)
    → Contiguous start (h ∷ g ∷ hs) stop
    → FitsAs h.type buffer h
    → most_bytes (h ∷ g ∷ hs) ≤ 65535
    → Finished buffer (g ∷ hs) o
    → Finished buffer (h ∷ g ∷ hs) (finish_outer h o)
unfolding finish_outer
outer-Finished buffer h g hs o start stop row fits small f =
    let kept =
      FitsAs-kept h.type buffer f.buffer' h f.size
        (subst (λ n. SameBelow (n + h.header_bytes) buffer f.buffer') (sym row.0)
          (f.below (start + h.header_bytes) stop row.1))
        fits in
    let s = finish-FinishedAs f.buffer' h f.first h.type kept (omega (arith, f.bound)) in
    record {
      buffer' = s.buffer';
      first = s.h';
      rest = f.first ∷ f.rest;
      done = rw (f.done, finish_outer) (rw s.done refl);
      size = s.size ∙ f.size;
      count = omega (arith, f.count);
      places = λ start stop c.
          (s.ptr ∙ c.0, rw s.header_bytes (f.places (start + h.header_bytes) stop c.1));
      nested = (subst (λ t. WrapsAs t s.h' f.first) (sym s.type) s.wraps, f.nested);
      bound = omega (arith, s.bound, f.bound);
      below = λ start stop c i i_lt.
          s.below i (omega (arith, c.0))
          ∙ f.below (start + h.header_bytes) stop c.1 i (omega arith);
    }

pub finish_all :
    (buffer : List ℕ) (hs : List Header) (start stop : ℕ)
    → Contiguous start hs stop
    → AllFit buffer hs
    → IsClosed hs
    → most_bytes hs ≤ 65535
    → Finished buffer hs (packet_finish_encapsulation_headers buffer hs)
unfolding packet_finish_encapsulation_headers finish_outer
finish_all buffer [] start stop row fits closed small = absurd closed
finish_all buffer (h ∷ []) start stop row fits closed small = record {
  buffer' = buffer;
  first = h;
  rest = [];
  done = rw (innermost buffer h h.type closed) refl;
  size = refl;
  count = refl;
  places = λ start stop c. c;
  nested = tt;
  bound = omega arith;
  below = λ start stop c i i_lt. refl;
}
finish_all buffer (h ∷ g ∷ hs) start stop row fits closed small =
    outer-Finished buffer h g hs _ start stop row fits.0 small
      (finish_all buffer (g ∷ hs) (start + h.header_bytes) stop row.1 fits.1 closed (omega arith))
