-- ===== src/Conversation/Guardrails.antt =====
-- src/conversation/guardrails/guardrails.service.ts. `now` is `Date.now()`.
pub mod Laws
use inmoagent.Prelude.{
  ℕ, ◌+◌, ◌*◌, Bool, true, false, not, ◌&&◌, Option, none, some, List, leb, if◌then◌else◌, trim,
}
use inmoagent.Domain.Lead.{
  ConversationState, human_handoff, opted_out, is_human_handoff, is_opted_out, Lead,
}
use inmoagent.Conversation.Types.{TextRules}

pub data GuardrailAction : Type 0 where
  opt_out handoff silenced handoff_timeout_release session_expired continue : GuardrailAction

abbrev pub handoff_timeout_ms : ℕ
handoff_timeout_ms = 48 * 60 * 60 * 1000

abbrev pub session_expiration_ms : ℕ
session_expiration_ms = 30 * 24 * 60 * 60 * 1000

-- `Date.now() - t >= limit` on integers
abbrev pub elapsed : ℕ → ℕ → ℕ → Bool
elapsed now since limit = leb (since + limit) now

unfoldable pub is_handoff_timed_out : ℕ → Option ℕ → Bool
is_handoff_timed_out now none = true
is_handoff_timed_out now (some at) = elapsed now at handoff_timeout_ms

unfoldable pub is_session_expired : ℕ → Option ℕ → Bool
is_session_expired now none = false
is_session_expired now (some at) = elapsed now at session_expiration_ms

unfoldable pub evaluate : TextRules → ℕ → Lead → List ℕ → GuardrailAction
evaluate rules now lead turn_text =
    if not (is_opted_out lead.state) && rules.asks_opt_out (trim turn_text)
    then opt_out
    else if not (is_human_handoff lead.state)
        && not (is_opted_out lead.state)
        && rules.asks_handoff (trim turn_text)
    then handoff
    else if is_opted_out lead.state
    then silenced
    else if is_human_handoff lead.state
    then (if is_handoff_timed_out now lead.handoff_at then handoff_timeout_release else silenced)
    else if is_session_expired now lead.last_message_at
    then session_expired
    else continue
