-- ===== src/Conversation/Guardrails/Laws.antt =====
-- When each guardrail fires.
use inmoagent.Prelude.{ℕ, ◌+◌, ◌≤◌, ◌<◌, true, false, some, List, ◌≡◌, ◌≢◌, ◌↔◌, arith, trim}
use inmoagent.Domain.Lead.{human_handoff, opted_out, Lead}
use inmoagent.Conversation.Types.{TextRules}
use inmoagent.Conversation.Guardrails.{
  opt_out, silenced, handoff_timeout_release, session_expired, is_handoff_timed_out,
  is_session_expired, evaluate,
}

module _ (rules : TextRules) (now : ℕ) (lead : Lead) (turn_text : List ℕ) where
  -- A turn is an opt-out exactly if the lead has not opted out yet and the trimmed text asks for
  -- it, in whatever other state the lead is, a human handoff included.
  pub evaluate-opt_out_iff :
      (evaluate rules now lead turn_text ≡ opt_out)
      ↔ ((lead.state ≢ opted_out) × (rules.asks_opt_out (trim turn_text) ≡ true))
  unfolding evaluate
  evaluate-opt_out_iff = grind arith

  -- A turn of a lead in human handoff whose text does not opt out is released exactly if 48 hours
  -- have passed since the stored start of the handoff, and is silenced exactly if they have not.
  pub evaluate-release_iff :
      (at : ℕ)
      → lead.state ≡ human_handoff
      → rules.asks_opt_out (trim turn_text) ≡ false
      → lead.handoff_at ≡ some at
      → ((evaluate rules now lead turn_text ≡ handoff_timeout_release) ↔ (at + 172800000 ≤ now))
        × ((evaluate rules now lead turn_text ≡ silenced) ↔ (now < at + 172800000))
  unfolding evaluate is_handoff_timed_out
  evaluate-release_iff at s h e = ground arith

  -- A session expires exactly if the lead is in an active state, the text asks neither for an
  -- opt-out nor for a person, and the last message is at least 30 days old.
  pub evaluate-session_expired_iff : (evaluate rules now lead turn_text ≡ session_expired) ↔ (
      (lead.state ≢ opted_out)
      × (lead.state ≢ human_handoff)
      × (rules.asks_opt_out (trim turn_text) ≡ false)
      × (rules.asks_handoff (trim turn_text) ≡ false)
      × ((at : ℕ) × (lead.last_message_at ≡ some at) × (at + 2592000000 ≤ now)))
  unfolding evaluate is_session_expired
  evaluate-session_expired_iff = ground arith
