-- ===== src/Tests/Rules.antt =====
-- Texts on which the regular expressions of src/conversation are tried.
use inmoagent.Prelude.{
  ℕ, List, zero, suc, ◌==◌, length, ap, All, true, false, some, ◌++◌, ◌≡◌, ◌↔◌, ◌⊎◌, ◌≢◌, inl, inr,
  arith, refl, Elem, trim, trim_start, trim_end, is_space, [], ◌∷◌,
}
use inmoagent.Conversation.Variants.{SeedKit, ReadsBack}
use inmoagent.Regex.{
  Regex, codes, test, test_any, test_from, ends, flat_map, star_ends, behind, unit_ends,
}
use inmoagent.Regex.Spec.{Occurs}
use inmoagent.Regex.Syntax.{seq, alt, folded, exactly, is_one_of, at_least}
use inmoagent.Regex.Replace.{replace, replace_from, replace_all, replace_all_from}
use inmoagent.Conversation.Rules.Guardrails.{opt_out_phrases}
use inmoagent.Conversation.Rules.Answers.{extract_day_preference, saturday_pattern, weekday_pattern}
use inmoagent.Conversation.Rules.Choice.{
  cleaned_text, confirms_property_choice, number_pattern, quantity_pattern, number_unit_pattern,
  property_choice_patterns,
}
use inmoagent.Conversation.Rules.Output.{has_sensitive_data, sensitive_patterns}
use inmoagent.Conversation.Rules.Commands.{Commands, evaluate-iff-Commands}
use inmoagent.Conversation.Rules.Source.{source_rules}
use inmoagent.Conversation.Guardrails.{evaluate, opt_out}
use inmoagent.Domain.Lead.{opted_out}
use inmoagent.Tests.Data.{new_lead}

greets_state : new_lead.state ≢ opted_out
greets_state e = cc e

evaluate-iff-Commands_example :
    (evaluate source_rules 5 new_lead (codes " STOP, por favor") ≡ opt_out) ↔ (
      Commands (trim (codes " STOP, por favor"))
      ⊎ ((phrase : Regex) × Elem phrase opt_out_phrases
          × Occurs phrase (trim (codes " STOP, por favor"))))
evaluate-iff-Commands_example =
    evaluate-iff-Commands 5 new_lead (codes " STOP, por favor") greets_state

stop_now_trimmed : trim (codes " STOP, por favor") ≡ codes "STOP" ++ codes ", por favor"
unfolding trim trim_start trim_end is_space
stop_now_trimmed = refl

-- A capital counts as its small letter, and the command is found.
stop_now : Commands (trim (codes " STOP, por favor"))
stop_now = record {
  word = codes "stop";
  written = codes "STOP";
  rest = codes ", por favor";
  known = inr (inl refl);
  spelled = (
    inr (omega arith, omega arith, refl),
    (
      inr (omega arith, omega arith, refl),
      (inr (omega arith, omega arith, refl), (inr (omega arith, omega arith, refl), tt)),
    ),
  );
  begins = stop_now_trimmed;
  ended = refl;
}

yes_please_trimmed : trim (codes " sí, dale") ≡ codes "sí" ++ codes ", dale"
unfolding trim trim_start trim_end is_space
yes_please_trimmed = refl

saturday : extract_day_preference (codes "El SÁBADO a la tarde") ≡ some "sábado"
unfolding extract_day_preference saturday_pattern weekday_pattern test test_from seq alt folded
    is_one_of ends flat_map star_ends behind unit_ends
saturday = refl

two_rooms : confirms_property_choice (codes "2 amb estaria joya") ≡ false
unfolding confirms_property_choice cleaned_text number_pattern quantity_pattern number_unit_pattern
    property_choice_patterns replace replace_from replace_all replace_all_from test_any test
    test_from seq alt folded is_one_of ends flat_map star_ends behind unit_ends is_space
two_rooms = refl

-- Only the first number with a unit is taken out.
two_or_three_rooms : confirms_property_choice (codes "2 amb o 3 amb") ≡ true
unfolding confirms_property_choice cleaned_text number_pattern quantity_pattern number_unit_pattern
    property_choice_patterns replace replace_from replace_all replace_all_from test_any test
    test_from seq alt folded is_one_of ends flat_map star_ends behind unit_ends is_space
two_or_three_rooms = refl

secret : has_sensitive_data (codes "mi token es sk-abcdefghijklmnopqrstuvwx") ≡ true
unfolding has_sensitive_data sensitive_patterns test_any test test_from seq exactly folded at_least
    ends flat_map star_ends behind unit_ends is_space
secret = refl

-- a number as so many strokes
abbrev replicate_digit : ℕ → List ℕ
replicate_digit zero = []
replicate_digit (suc n) = b'1' ∷ replicate_digit n

no_colon : (n : ℕ) → All (λ (c : ℕ). (c == b':') ≡ false) (replicate_digit n)
no_colon zero = tt
no_colon (suc n) = (refl, no_colon n)

strokes : (n : ℕ) → length (replicate_digit n) ≡ n
strokes zero = refl
strokes (suc n) = ap suc (strokes n)

abbrev seed_kit : SeedKit
seed_kit = record {
  hash_uint32 = λ s. length s;
  number = λ s. some (length s);
  print = replicate_digit;
}

seed_kit-ReadsBack : ReadsBack seed_kit
seed_kit-ReadsBack = record { no_colon = no_colon; reads = λ n. ap some (strokes n) }

abbrev two_texts : List (List ℕ)
two_texts = codes "hola" ∷ codes "buenas" ∷ []
