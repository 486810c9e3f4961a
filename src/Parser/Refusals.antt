-- ===== src/Parser/Refusals.antt =====
-- The checks of the parser never end a parse with PACKET_OK.
use qo_smos.Prelude.{
  ℕ, zero, suc, ◌+◌, ◌≡◌, refl, Bool, true, false, List, get_elem?, length, leb, if◌then◌else◌,
  Bool-cases, Option-cases, inl, inr,
}
use qo_smos.Parser.Outcome.{
  Result, packet_ok, packet_bad, packet_unknown_l4, overread, assert_failed, out_of_fuel, Checked,
  pass, halt, Reason, ◌>>=◌, refuse, assert, read8, read16,
}
use qo_smos.Parser.Checks.{
  read_bytes, check_ipv4, check_ipv6, check_layer3, check_gre, mpls_stack, check_mpls,
}
use qo_smos.Parser.Layer4.{check_tcp, check_udp}

abbrev pub is_ok : Result → Bool
is_ok packet_ok = true
is_ok packet_unknown_l4 = false
is_ok (packet_bad e) = false
is_ok overread = false
is_ok assert_failed = false
is_ok out_of_fuel = false

pub data Refuses {A : Type 0} : Checked A → Type 0 where
  passes : (a : A) → Refuses (pass a)
  halts : (r : Result) → is_ok r ≡ false → Refuses (halt r)

pub bind-Refuses :
    {A B : Type 0} {m : Checked A} {f : A → Checked B}
    → Refuses m
    → ((a : A) → Refuses (f a))
    → Refuses (m >>= f)
unfolding ◌>>=◌
bind-Refuses (passes a) k = k a
bind-Refuses (halts r h) k = halts r h

pub refuse-Refuses : (b : Bool) (e : Reason) → Refuses (refuse b e)
unfolding refuse
refuse-Refuses true e = halts _ refl
refuse-Refuses false e = passes tt

pub assert-Refuses : (b : Bool) → Refuses (assert b)
unfolding assert
assert-Refuses true = passes tt
assert-Refuses false = halts _ refl

pub read8-Refuses : (buffer : List ℕ) (i : ℕ) → Refuses (read8 buffer i)
unfolding read8
read8-Refuses buffer i = elim (Option-cases (get_elem? buffer i)) [
  | inl e ↦ rw (e, read8) (halts _ refl)
  | inr (b, e) ↦ rw (e, read8) (passes b)
]

pub read16-Refuses : (buffer : List ℕ) (i : ℕ) → Refuses (read16 buffer i)
unfolding read16
read16-Refuses buffer i =
    bind-Refuses (read8-Refuses buffer i)
      (λ hi. bind-Refuses (read8-Refuses buffer (i + 1)) (λ lo. passes _))

pub read_bytes-Refuses : (buffer : List ℕ) (p n : ℕ) → Refuses (read_bytes buffer p n)
unfolding read_bytes
read_bytes-Refuses buffer p n = elim (Bool-cases (leb (p + n) (length buffer))) [
  | inl e ↦ rw (e, read_bytes) (passes _)
  | inr e ↦ rw (e, read_bytes) (halts _ refl)
]

pub ruleset refusals = (
  bind-Refuses, passes, refuse-Refuses, assert-Refuses, read8-Refuses, read16-Refuses,
  read_bytes-Refuses,
)

pub check_ipv4-Refuses :
    (buffer : List ℕ) (p packet_end : ℕ) → Refuses (check_ipv4 buffer p packet_end)
unfolding check_ipv4
check_ipv4-Refuses buffer p packet_end = search refusals depth 30

pub check_ipv6-Refuses :
    (buffer : List ℕ) (p packet_end : ℕ) → Refuses (check_ipv6 buffer p packet_end)
unfolding check_ipv6
check_ipv6-Refuses buffer p packet_end = search refusals depth 20

pub check_layer3-Refuses :
    (buffer : List ℕ) (p packet_end n : ℕ) (e : Reason)
    → Refuses (check_layer3 buffer p packet_end n e)
unfolding check_layer3
check_layer3-Refuses buffer p packet_end n e = search refusals depth 10

pub check_gre-Refuses :
    (buffer : List ℕ) (p bytes packet_end : ℕ) → Refuses (check_gre buffer p bytes packet_end)
unfolding check_gre
check_gre-Refuses buffer p bytes packet_end = search refusals depth 20

pub check_tcp-Refuses : (buffer : List ℕ) (start bytes : ℕ) → Refuses (check_tcp buffer start bytes)
unfolding check_tcp
check_tcp-Refuses buffer start bytes = search refusals depth 10

pub check_udp-Refuses : (buffer : List ℕ) (start bytes : ℕ) → Refuses (check_udp buffer start bytes)
unfolding check_udp
check_udp-Refuses buffer start bytes = search refusals depth 10

if-Refuses :
    {A : Type 0} {m k : Checked A} (b : Bool) → Refuses m → Refuses k → Refuses (if b then m else k)
if-Refuses true h k = h
if-Refuses false h k = k

mpls_stack-Refuses :
    (buffer : List ℕ) (packet_end fuel p : ℕ) → Refuses (mpls_stack buffer packet_end fuel p)
unfolding mpls_stack
mpls_stack-Refuses buffer packet_end zero p = halts _ refl
mpls_stack-Refuses buffer packet_end (suc fuel) p = bind-Refuses (refuse-Refuses _ _) (λ u.
    bind-Refuses (read8-Refuses buffer (p + 2))
      (λ third. if-Refuses _ (mpls_stack-Refuses buffer packet_end fuel (p + 4)) (passes (p + 4))))

pub check_mpls-Refuses :
    (buffer : List ℕ) (p packet_end : ℕ) → Refuses (check_mpls buffer p packet_end)
unfolding check_mpls
check_mpls-Refuses buffer p packet_end =
    bind-Refuses (mpls_stack-Refuses buffer packet_end (suc packet_end) p)
      (λ after. search refusals depth 10)
