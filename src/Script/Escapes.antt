-- ===== src/Script/Escapes.antt =====
-- The escape codes of a script's strings.
use qo_smos.Prelude.{
  ℕ, ◌+◌, ◌-◌, ◌/◌, ◌%◌, ◌<◌, ◌≡◌, refl, Bool, false, ◌||◌, List, [], ◌∷◌, ltb, ◌==◌, if◌then◌else◌,
  some, Bool-cases, inl, inr, ◌≢◌, arith,
}
use qo_smos.Script.Outcomes.{ok, ◌>>=◌}
use qo_smos.Script.{hex_digit, strtol_byte, unescape_cstring_expression}

abbrev pub AreBytes : List ℕ → Type 0
AreBytes [] = Unit
AreBytes (c ∷ cs) = (c < 256) × AreBytes cs

unfoldable pub hex : ℕ → ℕ
hex d = if ltb d 10 then b'0' + d else b'a' + (d - 10)

unfoldable pub needs_escape : ℕ → Bool
needs_escape c = c == b'\\' || c == b'"' || ltb c 32 || ltb 126 c

-- A text with `\x` and two hexadecimal digits for a backslash, a quote and what is not printable.
unfoldable pub escape : List ℕ → List ℕ
unfolding hex needs_escape
escape [] = []
escape (c ∷ cs) =
    let rest = escape cs in
    if needs_escape c then b'\\' ∷ b'x' ∷ hex (c / 16) ∷ hex (c % 16) ∷ rest else c ∷ rest

hex_digit-hex : (d : ℕ) → d < 16 → hex_digit (hex d) ≡ some d
unfolding hex_digit hex
hex_digit-hex d h = ground arith

strtol_byte-hex : (c : ℕ) → c < 256 → strtol_byte (hex (c / 16)) (hex (c % 16)) ≡ some c
unfolding strtol_byte
strtol_byte-hex c h = ground (arith, hex_digit-hex (c % 16), hex_digit-hex (c / 16))

unescape_hex :
    (c : ℕ) (rest : List ℕ)
    → c < 256
    → unescape_cstring_expression (b'\\' ∷ b'x' ∷ hex (c / 16) ∷ hex (c % 16) ∷ rest)
      ≡ (unescape_cstring_expression rest >>= λ out. ok (c ∷ out))
unfolding unescape_cstring_expression
unescape_hex c rest h = rw (strtol_byte-hex c h)

unescape_plain :
    (c : ℕ) (rest : List ℕ)
    → c ≢ b'\\'
    → unescape_cstring_expression (c ∷ rest)
      ≡ (unescape_cstring_expression rest >>= λ out. ok (c ∷ out))
unfolding unescape_cstring_expression
unescape_plain c [] h = ground arith
unescape_plain c (d ∷ []) h = ground arith
unescape_plain c (d ∷ e ∷ []) h = ground arith
unescape_plain c (d ∷ e ∷ f ∷ rest) h = ground arith

unescape_nil : unescape_cstring_expression [] ≡ ok []
unfolding unescape_cstring_expression
unescape_nil = refl

plain_char : (c : ℕ) → needs_escape c ≡ false → c ≢ b'\\'
unfolding needs_escape
plain_char c h = ground arith

-- Every text of bytes can be written with hexadecimal escapes, and is read back from them.
pub unescape-escape : (cs : List ℕ) → AreBytes cs → unescape_cstring_expression (escape cs) ≡ ok cs
unfolding escape
unescape-escape [] h = unescape_nil
unescape-escape (c ∷ cs) h = elim (Bool-cases (needs_escape c)) [
  | inl special ↦ rw (special, unescape_hex c (escape cs) h.0, unescape-escape cs h.1) refl
  | inr plain ↦
      let printable : c ≢ b'\\' = plain_char c plain in
      rw (plain, unescape_plain c (escape cs) printable, unescape-escape cs h.1) refl
]
