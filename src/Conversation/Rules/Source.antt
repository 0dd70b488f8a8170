-- ===== src/Conversation/Rules/Source.antt =====
-- The expressions together, as the engine takes them.
use inmoagent.Prelude.{ℕ, Bool, false, List, [], ◌∷◌, ◌||◌, ◌==◌}
use inmoagent.Conversation.Types.{TextRules}
use inmoagent.Conversation.Rules.Guardrails.{asks_opt_out, asks_handoff}
use inmoagent.Conversation.Rules.BuyingSignals.{has_buying_signal}
use inmoagent.Conversation.Rules.Answers.{
  accepts_zone_suggestion, delegates_zone_choice, extract_day_preference,
}
use inmoagent.Conversation.Rules.Choice.{confirms_property_choice}

-- `text.includes('?')`
unfoldable pub has_question_mark : List ℕ → Bool
has_question_mark [] = false
has_question_mark (c ∷ s) = c == b'?' || has_question_mark s

abbrev pub source_rules : TextRules
source_rules = record {
  asks_opt_out = asks_opt_out;
  asks_handoff = asks_handoff;
  has_buying_signal = has_buying_signal;
  accepts_zone_suggestion = accepts_zone_suggestion;
  delegates_zone_choice = delegates_zone_choice;
  confirms_property_choice = confirms_property_choice;
  extract_day_preference = extract_day_preference;
  has_question_mark = has_question_mark;
}
