-- ===== src/Conversation/Rules/Output.antt =====
-- The expressions of src/conversation/output-validator.service.ts.
use inmoagent.Prelude.{ℕ, String, Bool, false, List, [], ◌∷◌, ◌||◌}
use inmoagent.Regex.{Regex, word_boundary, test, test_any}
use inmoagent.Regex.Syntax.{
  seq, plus, at_least, lit, exact, space, key_unit, token_unit, letter_or_digit,
}

unfoldable pub sensitive_patterns : List Regex
sensitive_patterns =
    (seq (word_boundary ∷ (exact "sk-") ∷ (at_least 16 key_unit) ∷ []))
    ∷ (seq (word_boundary ∷ (exact "gsk_") ∷ (at_least 16 key_unit) ∷ []))
    ∷ (seq (word_boundary ∷ (lit "Bearer") ∷ (plus space) ∷ (at_least 16 token_unit) ∷ []))
    ∷ (seq (word_boundary ∷ (exact "EA") ∷ (at_least 40 letter_or_digit) ∷ []))
    ∷ []

unfoldable pub has_sensitive_data : List ℕ → Bool
has_sensitive_data text = test_any sensitive_patterns text

-- `hadForbiddenMention` of `sanitize`: the escaped name of a competitor is a pattern for itself, with the flag `i`.
unfoldable pub has_forbidden_mention : List String → List ℕ → Bool
has_forbidden_mention [] text = false
has_forbidden_mention (competitor ∷ competitors_to_avoid) text =
    test (lit competitor) text || has_forbidden_mention competitors_to_avoid text
