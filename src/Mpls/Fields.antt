-- ===== src/Mpls/Fields.antt =====
-- The fields of a stack entry that a script gives.
use Prim.Native.Nat.{bit_or, bit_or-bitwise, digits, max}
use qo_smos.Prelude.{
  ℕ, zero, suc, ◌+◌, ◌*◌, ◌/◌, ◌%◌, ◌^◌, ◌≤◌, ◌<◌, ◌≡◌, refl, if◌then◌else◌, Bool, true, false,
  some, arith,
}
use qo_smos.Prelude.Int.{pos}
use qo_smos.Mpls.{
  mpls_entry_label, mpls_entry_tc, mpls_entry_stack, mpls_entry_ttl, mpls_entry_set,
  new_mpls_stack_entry,
}

max_zero : (x : ℕ) → max x 0 ≡ x
max_zero zero = omega arith
max_zero (suc x) = omega arith

digits_zero : (count x : ℕ) → x ≤ count → digits (λ m. m) max count x 0 ≡ x
digits_zero zero x few = omega arith
digits_zero (suc count) zero few = refl
digits_zero (suc count) (suc x) few =
    omega (arith, digits_zero count (suc x / 2) (omega arith), max_zero (suc x % 2))

or_zero : (x : ℕ) → bit_or x 0 ≡ x
or_zero x = omega (arith, bit_or-bitwise x 0, digits_zero x x (omega arith))

-- The word of fields that fit is their sum, each at its place.
word_of_fields :
    (label tc : ℕ) (bottom : Bool) (ttl : ℕ)
    → label < 2 ^ 20
    → tc < 2 ^ 3
    → mpls_entry_set label tc bottom ttl
      ≡ label * 2 ^ 12 + tc * 2 ^ 9 + (if bottom then 2 ^ 8 else 0) + ttl
unfolding mpls_entry_set
word_of_fields label tc bottom ttl label_fits tc_fits =
    let no_high : tc / 2 ^ 3 ≡ 0 = omega arith in
    let whole : label % 2 ^ 20 ≡ label = omega arith in
    rw (no_high, whole, or_zero label) (ground arith)

-- The fields that are read from an entry of 32 bits.
abbrev pub Reads : ℕ → ℕ → Bool → ℕ → ℕ → Type 0
Reads label tc bottom ttl entry =
    (entry < 2 ^ 32)
    × (mpls_entry_label entry ≡ label)
    × (mpls_entry_tc entry ≡ tc)
    × (mpls_entry_stack entry ≡ bottom)
    × (mpls_entry_ttl entry ≡ ttl)

word-Reads :
    (label tc : ℕ) (bottom : Bool) (ttl entry : ℕ)
    → label < 2 ^ 20
    → tc < 2 ^ 3
    → ttl < 2 ^ 8
    → entry ≡ label * 2 ^ 12 + tc * 2 ^ 9 + (if bottom then 2 ^ 8 else 0) + ttl
    → Reads label tc bottom ttl entry
unfolding mpls_entry_label mpls_entry_tc mpls_entry_stack mpls_entry_ttl
word-Reads label tc true ttl entry label_fits tc_fits ttl_fits word =
    (omega arith, omega arith, omega arith, ground arith, omega arith)
word-Reads label tc false ttl entry label_fits tc_fits ttl_fits word =
    (omega arith, omega arith, omega arith, ground arith, omega arith)

-- Fields within 20, 3 and 8 bits make an entry of 32 bits from which each of them is read back.
pub new_mpls_stack_entry-Reads :
    (label tc : ℕ) (bottom : Bool) (ttl : ℕ)
    → label < 2 ^ 20
    → tc < 2 ^ 3
    → ttl < 2 ^ 8
    → (new_mpls_stack_entry (pos label) (pos tc) bottom (pos ttl)
        ≡ some (mpls_entry_set label tc bottom ttl))
      × Reads label tc bottom ttl (mpls_entry_set label tc bottom ttl)
unfolding new_mpls_stack_entry
new_mpls_stack_entry-Reads label tc bottom ttl label_fits tc_fits ttl_fits = (
  ground arith,
  word-Reads label tc bottom ttl _ label_fits tc_fits ttl_fits
      (word_of_fields label tc bottom ttl label_fits tc_fits),
)
