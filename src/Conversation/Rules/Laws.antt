-- ===== src/Conversation/Rules/Laws.antt =====
-- What the expressions of the guardrails and of the filters find.
use inmoagent.Prelude.{
  ℕ, true, false, none, some, List, [], ◌∷◌, ◌++◌, ◌≡◌, ◌↔◌, ◌⊎◌, inl, inr, refl, ◌∙◌, arith, Elem,
  Bool-cases, is_nonempty, trim, is_space,
}
use inmoagent.Regex.{
  Regex, start, both, codes, word_behind, ends, flat_map, star_ends, behind, unit_ends, test,
  test_from, test_any,
}
use inmoagent.Regex.Syntax.{seq, alt, folded, is_one_of}
use inmoagent.Regex.Spec.{Occurs}
use inmoagent.Regex.Exact.{test-iff-Occurs, test_any-iff-Elem, or_true}
use inmoagent.Conversation.Rules.Guardrails.{opt_out_command, opt_out_phrases, asks_opt_out}
use inmoagent.Conversation.Rules.Answers.{acceptance_pattern, accepts_zone_suggestion}

-- the rest of an anchored pattern is tried at the text's start only
test_from-start : (r : Regex) (c : ℕ) (s : List ℕ) → test_from (both start r) (some c) s ≡ false
unfolding test_from ends flat_map
test_from-start r c [] = refl
test_from-start r c (x ∷ s) = test_from-start r x s

pub test-start :
    (r : Regex) (c : ℕ) (s : List ℕ)
    → test (both start r) (c ∷ s)
      ≡ is_nonempty (ends (both start r) (record { before = none; rest = c ∷ s }))
unfolding test test_from
test-start r c s =
    elim (Bool-cases (is_nonempty (ends (both start r) (record { before = none; rest = c ∷ s })))) [
      | inl e ↦ rw e
      | inr e ↦ rw (e, test_from-start r c s)
    ]

-- A text asks for no more messages exactly where the command occurs in it or one of the phrases.
pub asks_opt_out-iff-Occurs :
    (trimmed : List ℕ)
    → (asks_opt_out trimmed ≡ true) ↔ (
        Occurs opt_out_command trimmed
        ⊎ ((phrase : Regex) × Elem phrase opt_out_phrases × Occurs phrase trimmed))
unfolding asks_opt_out
asks_opt_out-iff-Occurs trimmed = (sound, complete)
  where
    sound :
        asks_opt_out trimmed ≡ true
        → Occurs opt_out_command trimmed
          ⊎ ((phrase : Regex) × Elem phrase opt_out_phrases × Occurs phrase trimmed)
    sound h = elim (or_true (test opt_out_command trimmed) (test_any opt_out_phrases trimmed) h) [
      | inl e ↦ inl ((test-iff-Occurs opt_out_command trimmed).0 e)
      | inr e ↦ inr ((test_any-iff-Elem opt_out_phrases trimmed).0 e)
    ]

    complete :
        Occurs opt_out_command trimmed
          ⊎ ((phrase : Regex) × Elem phrase opt_out_phrases × Occurs phrase trimmed)
        → asks_opt_out trimmed ≡ true
    complete (inl o) = rw ((test-iff-Occurs opt_out_command trimmed).1 o)
    complete (inr o) = let e = (test_any-iff-Elem opt_out_phrases trimmed).1 o in ground (arith, e)

acceptance_at_start :
    (c : ℕ) (s : List ℕ)
    → test acceptance_pattern (c ∷ s)
      ≡ is_nonempty (ends acceptance_pattern (record { before = none; rest = c ∷ s }))
unfolding acceptance_pattern seq
acceptance_at_start c s = test-start _ c s

acceptance_of_accent :
    (rest : List ℕ)
    → is_nonempty (ends acceptance_pattern (record { before = none; rest = codes "sí" ++ rest }))
      ≡ word_behind rest
unfolding acceptance_pattern seq alt folded is_one_of ends flat_map star_ends behind unit_ends
    is_space
acceptance_of_accent [] = refl
acceptance_of_accent (c ∷ rest) = elim (Bool-cases (word_behind (c ∷ rest))) [
  | inl e ↦ rw e
  | inr e ↦ rw e
]

-- A trimmed text that begins with "sí" is a yes exactly where a word unit follows: the boundary
-- that the expression wants is not there behind an accented letter.
pub accepts_zone_suggestion-accent :
    (text rest : List ℕ)
    → trim text ≡ codes "sí" ++ rest
    → accepts_zone_suggestion text ≡ word_behind rest
unfolding accepts_zone_suggestion
accepts_zone_suggestion-accent text rest h =
    rw h (acceptance_at_start 115 (237 ∷ rest) ∙ acceptance_of_accent rest)
