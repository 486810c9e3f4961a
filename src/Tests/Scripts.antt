-- ===== src/Tests/Scripts.antt =====
-- Expressions and strings of scripts.
use qo_smos.Prelude.{◌≡◌, refl, [], ◌∷◌, ◌↔◌, arith}
use qo_smos.Prelude.Int.{pos, negsuc}
use qo_smos.Script.Outcomes.{
  ok, err, Returns, unknown_symbol, unsupported_escape_code, invalid_hex_escape,
}
use qo_smos.Script.{
  Expression, Expressions, integer, word, string, binary, list, nil, cons, ellipsis, Symbols,
  evaluate, evaluate_expression_list, unescape_cstring_expression, or64,
}
use qo_smos.Script.Resolved.{AllResolved, evaluate_expression_list-IsResolved}
use qo_smos.Script.Numbers.{Means, evaluate-exact}
use qo_smos.Script.Escapes.{escape, unescape-escape}

-- Two flags of open() and one of the platform's.
abbrev flags : Symbols
flags = record {
  cross_platform_symbols = (b'A' ∷ [], pos 1) ∷ (b'B' ∷ [], pos 6) ∷ [];
  platform_symbols = (b'C' ∷ [], pos 64) ∷ [];
}

abbrev a_or_c : Expression
a_or_c = binary (b'|' ∷ []) (word (b'A' ∷ [])) (word (b'C' ∷ []))

abbrev arguments : Expressions
arguments = cons ellipsis (cons (list (cons a_or_c nil)) (cons (string (b'h' ∷ b'i' ∷ [])) nil))

evaluate_expression_list-IsResolved_example :
    Returns AllResolved (evaluate_expression_list flags arguments)
evaluate_expression_list-IsResolved_example = evaluate_expression_list-IsResolved flags arguments

evaluated_arguments :
    evaluate_expression_list flags arguments
    ≡ ok (
        cons ellipsis
          (cons (list (cons (integer (pos 65)) nil)) (cons (string (b'h' ∷ b'i' ∷ [])) nil)))
unfolding evaluate
evaluated_arguments = refl

evaluate-exact_example :
    (evaluate flags a_or_c ≡ ok (integer (pos 65))) ↔ Means flags a_or_c (pos 65)
evaluate-exact_example = evaluate-exact flags a_or_c (pos 65)

an_unknown_symbol : evaluate flags (word (b'D' ∷ [])) ≡ err (unknown_symbol (b'D' ∷ []))
unfolding evaluate
an_unknown_symbol = refl

-- The sign survives the 64-bit pattern.
or_negative : or64 (negsuc 7) (pos 1) ≡ negsuc 6
unfolding or64
or_negative = refl

unescape-escape_example :
    unescape_cstring_expression (escape (b'"' ∷ 10 ∷ b'a' ∷ b'\\' ∷ 255 ∷ []))
    ≡ ok (b'"' ∷ 10 ∷ b'a' ∷ b'\\' ∷ 255 ∷ [])
unescape-escape_example =
    unescape-escape (b'"' ∷ 10 ∷ b'a' ∷ b'\\' ∷ 255 ∷ [])
      (omega arith, (omega arith, (omega arith, (omega arith, (omega arith, tt)))))

-- The missing breaks of the switch: an escaped quote becomes a form feed.
escaped_quote : unescape_cstring_expression (b'\\' ∷ b'"' ∷ []) ≡ ok (12 ∷ [])
unfolding unescape_cstring_expression
escaped_quote = refl

last_backslash : unescape_cstring_expression (b'a' ∷ b'\\' ∷ []) ≡ err unsupported_escape_code
unfolding unescape_cstring_expression
last_backslash = refl

short_hex : unescape_cstring_expression (b'\\' ∷ b'x' ∷ b'4' ∷ []) ≡ err invalid_hex_escape
unfolding unescape_cstring_expression
short_hex = refl
