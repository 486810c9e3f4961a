-- ===== src/Tests/Labels.antt =====
-- Label stack entries and a stack that fills up.
use qo_smos.Prelude.{◌≡◌, refl, true, false, [], ◌∷◌, none, some, arith}
use qo_smos.Prelude.Int.{pos, negsuc}
use qo_smos.Mpls.{mpls_entry_set, new_mpls_stack_entry, mpls_stack_append}
use qo_smos.Mpls.Fields.{Reads, new_mpls_stack_entry-Reads}

new_mpls_stack_entry-Reads_example :
    (new_mpls_stack_entry (pos 123456) (pos 5) true (pos 64)
      ≡ some (mpls_entry_set 123456 5 true 64))
    × Reads 123456 5 true 64 (mpls_entry_set 123456 5 true 64)
new_mpls_stack_entry-Reads_example =
    new_mpls_stack_entry-Reads 123456 5 true 64 (omega arith) (omega arith) (omega arith)

a_word : mpls_entry_set 123456 5 true 64 ≡ 0x1e240b40
unfolding mpls_entry_set
a_word = refl

-- The high bits of a traffic class of a whole byte run into the label.
an_overlap : mpls_entry_set 1 24 false 0 ≡ 0x3000
unfolding mpls_entry_set
an_overlap = refl

negative_label : new_mpls_stack_entry (negsuc 0) (pos 0) false (pos 0) ≡ none
unfolding new_mpls_stack_entry
negative_label = refl

wide_ttl : new_mpls_stack_entry (pos 0) (pos 7) false (pos 256) ≡ none
unfolding new_mpls_stack_entry
wide_ttl = refl

last_entry : mpls_stack_append (1 ∷ 2 ∷ 3 ∷ 4 ∷ 5 ∷ []) 6 ≡ some (1 ∷ 2 ∷ 3 ∷ 4 ∷ 5 ∷ 6 ∷ [])
unfolding mpls_stack_append
last_entry = refl

full_stack : mpls_stack_append (1 ∷ 2 ∷ 3 ∷ 4 ∷ 5 ∷ 6 ∷ []) 7 ≡ none
unfolding mpls_stack_append
full_stack = refl
