-- ===== src/Parser/Rules.antt =====
-- Reasoning about a row of checks: what holds of the value that passes, and what it may halt with.
use qo_smos.Prelude.{
  ℕ, ◌+◌, ◌≤◌, ◌≡◌, refl, Bool, true, false, List, [], ◌∷◌, zero, suc, length, arith, some, none,
  get_elem?, leb, Option,
}
use qo_smos.Parser.Checks.{read_bytes}
use qo_smos.Parser.Outcome.{
  Result, packet_ok, packet_unknown_l4, packet_bad, overread, assert_failed, out_of_fuel, Checked,
  pass, halt, Reason, ◌>>=◌, refuse, assert, read8, read16,
}

-- A result that a caller can meet: no assert has failed, the fuel was enough, and a read outside
-- the buffer only happens if the packet fills the buffer to its last byte.
abbrev pub IsTame : List ℕ → ℕ → Result → Type 0
IsTame buffer packet_end packet_ok = Unit
IsTame buffer packet_end packet_unknown_l4 = Unit
IsTame buffer packet_end (packet_bad e) = Unit
IsTame buffer packet_end overread = length buffer ≤ packet_end
IsTame buffer packet_end assert_failed = ⊥
IsTame buffer packet_end out_of_fuel = ⊥

-- Either the value that passes satisfies `P`, or the result that ends the parse satisfies `R`.
pub data Holds {A : Type 0} (R : Result → Type 0) (P : A → Type 0) : Checked A → Type 0 where
  passes : (a : A) → P a → Holds R P (pass a)
  halts : (r : Result) → R r → Holds R P (halt r)

pub of_pass :
    {A : Type 0} {R : Result → Type 0} {P : A → Type 0} {m : Checked A} (a : A)
    → m ≡ pass a
    → Holds R P m
    → P a
of_pass a e (passes b h) = ground arith
of_pass a e (halts r h) = cc

pub weaken :
    {A : Type 0} {R : Result → Type 0} {P Q : A → Type 0} {m : Checked A}
    → Holds R P m
    → ((a : A) → P a → Q a)
    → Holds R Q m
weaken (passes a h) k = passes a (k a h)
weaken (halts r h) k = halts r h

module _ {A B : Type 0} {R : Result → Type 0} {P : A → Type 0} {Q : B → Type 0} where
  pub then-Holds :
      {m : Checked A} {f : A → Checked B}
      → Holds R P m
      → ((a : A) → P a → Holds R Q (f a))
      → Holds R Q (m >>= f)
  unfolding ◌>>=◌
  then-Holds (passes a h) k = k a h
  then-Holds (halts r h) k = halts r h

get_elem?-none {ℓ} : {A : Type ℓ} (xs : List A) (i : ℕ) → get_elem? xs i ≡ none → length xs ≤ i
get_elem?-none [] i h = omega arith
get_elem?-none (x ∷ xs) zero h = cc
get_elem?-none (x ∷ xs) (suc i) h = omega (arith, get_elem?-none xs i h)

module _ (buffer : List ℕ) (packet_end : ℕ) where
  pub refuse_rule :
      (b : Bool) (e : Reason) → Holds (IsTame buffer packet_end) (λ _. b ≡ false) (refuse b e)
  unfolding refuse
  refuse_rule true e = halts _ tt
  refuse_rule false e = passes tt refl

  pub assert_rule :
      {b : Bool} → b ≡ true → Holds (IsTame buffer packet_end) (λ _. Unit {0}) (assert b)
  unfolding assert
  assert_rule {b = true} h = passes tt tt
  assert_rule {b = false} h = cc

  read_go :
      (o : Option ℕ)
      → (o ≡ none → length buffer ≤ packet_end)
      → Holds
          (IsTame buffer packet_end)
          (λ _. Unit {0})
          (elim o as (λ _. Checked ℕ) [ none ↦ halt overread | some b ↦ pass b ])
  read_go none h = halts _ (h refl)
  read_go (some b) h = passes b tt

  -- A read at or before the end of the packet; only at the end may it leave the buffer.
  pub read8_rule :
      (i : ℕ) → i ≤ packet_end → Holds (IsTame buffer packet_end) (λ _. Unit {0}) (read8 buffer i)
  unfolding read8
  read8_rule i h = read_go (get_elem? buffer i) (λ e. omega (arith, get_elem?-none buffer i e))

  pub read16_rule :
      (i : ℕ)
      → i + 1 ≤ packet_end
      → Holds (IsTame buffer packet_end) (λ _. Unit {0}) (read16 buffer i)
  unfolding read16
  read16_rule i h =
      then-Holds (read8_rule i (omega arith))
        λ hi u. then-Holds (read8_rule (i + 1) h) λ lo v. passes _ tt

  -- Reading a block that ends inside the packet, which ends inside the buffer.
  pub read_bytes_rule :
      (p n : ℕ)
      → p + n ≤ packet_end
      → packet_end ≤ length buffer
      → Holds (IsTame buffer packet_end) (λ _. Unit {0}) (read_bytes buffer p n)
  unfolding read_bytes
  read_bytes_rule p n inside fits =
      let e : leb (p + n) (length buffer) ≡ true = ground arith in rw e (passes _ tt)
