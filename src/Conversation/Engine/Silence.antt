-- ===== src/Conversation/Engine/Silence.antt =====
-- The turns on which the engine says nothing, and the turn that opts out.
use inmoagent.Prelude.{
  ℕ, ◌+◌, ◌<◌, true, false, Option, none, some, List, [], ◌∷◌, ◌++◌, ◌≡◌, ◌≢◌, refl, trim, arith,
  inl, inr, Bool-cases, ◌&&◌, truthy,
}
use inmoagent.Domain.Lead.{human_handoff, opted_out, Tenant}
use inmoagent.Conversation.Types.{opt_out_confirmation, handoff_farewell}
use inmoagent.Conversation.World.{Env, World, sent_text, notify}
use inmoagent.Conversation.Guardrails.{handoff, silenced, evaluate}
use inmoagent.Conversation.Guardrails.Laws.{evaluate-opt_out_iff, evaluate-release_iff}
use inmoagent.Conversation.Engine.{take_action, handle_turn}
use inmoagent.Conversation.Engine.Sending.{
  send_action, send_actions, send_texts, is_blank, apply_formality,
}
use inmoagent.Conversation.Engine.Guarding.{veto_expiry, resolve_guardrail}
use inmoagent.Conversation.Engine.Keycaps.{normalize_keycap_digits}

module _ (env : Env) (raw : List ℕ) (w : World) where
  silenced_turn :
      (tenant : Option Tenant)
      → evaluate env.rules env.now w.lead (normalize_keycap_digits raw) ≡ silenced
      → handle_turn env tenant raw w ≡ w
  unfolding handle_turn take_action veto_expiry resolve_guardrail send_texts send_actions
  silenced_turn none h = refl
  silenced_turn (some tenant) h = rw h refl

  opted_out_silenced :
      w.lead.state ≡ opted_out
      → evaluate env.rules env.now w.lead (normalize_keycap_digits raw) ≡ silenced
  unfolding evaluate
  opted_out_silenced h = rw h refl

  -- A lead that opted out is left alone: whatever it writes, nothing is sent, no alert is raised
  -- and no row changes.
  pub handle_turn-opted_out :
      (tenant : Option Tenant) → w.lead.state ≡ opted_out → handle_turn env tenant raw w ≡ w
  handle_turn-opted_out tenant h = silenced_turn tenant (opted_out_silenced h)

  -- A lead in human handoff that does not ask to opt out is left alone until 48 hours have passed
  -- since the handoff: nothing is sent, no alert is raised and no row changes.
  pub handle_turn-handed_over :
      (tenant : Option Tenant) (at : ℕ)
      → w.lead.state ≡ human_handoff
      → env.rules.asks_opt_out (trim (normalize_keycap_digits raw)) ≡ false
      → w.lead.handoff_at ≡ some at
      → env.now < at + 172800000
      → handle_turn env tenant raw w ≡ w
  handle_turn-handed_over tenant at s o a early =
      silenced_turn tenant ((evaluate-release_iff env.rules env.now w.lead _ at s o a).1.1 early)

  -- A lead that has not opted out and asks for it is opted out at once: its row takes the state
  -- and the time and nothing else, and one confirmation is sent.
  pub handle_turn-opt_out :
      (tenant : Tenant)
      → w.lead.state ≢ opted_out
      → env.rules.asks_opt_out (trim (normalize_keycap_digits raw)) ≡ true
      → handle_turn env (some tenant) raw w ≡ record w {
        lead = record (w.lead) { state = opted_out; opted_out_at = some env.now };
        sent = w.sent ++ sent_text (apply_formality opt_out_confirmation tenant.bot_formality) ∷ [];
      }
  unfolding handle_turn take_action veto_expiry resolve_guardrail send_texts send_actions
      send_action is_blank
  handle_turn-opt_out tenant s o =
      rw ((evaluate-opt_out_iff env.rules env.now w.lead (normalize_keycap_digits raw)).1 (s, o))
        refl

  asks_for_person :
      w.lead.state ≢ opted_out
      → w.lead.state ≢ human_handoff
      → env.rules.asks_opt_out (trim (normalize_keycap_digits raw)) ≡ false
      → env.rules.asks_handoff (trim (normalize_keycap_digits raw)) ≡ true
      → evaluate env.rules env.now w.lead (normalize_keycap_digits raw) ≡ handoff
  unfolding evaluate
  asks_for_person s h o a = ground arith

  -- A lead in an active state that asks for a person, and not for an opt-out, is handed over at
  -- once: the row takes the state and the time, one farewell is sent, and the alert is raised.
  pub handle_turn-handoff :
      (tenant : Tenant)
      → w.lead.state ≢ opted_out
      → w.lead.state ≢ human_handoff
      → env.rules.asks_opt_out (trim (normalize_keycap_digits raw)) ≡ false
      → env.rules.asks_handoff (trim (normalize_keycap_digits raw)) ≡ true
      → handle_turn env (some tenant) raw w ≡ record w {
        lead = record (w.lead) { state = human_handoff; handoff_at = some env.now };
        sent = w.sent ++ sent_text (apply_formality handoff_farewell tenant.bot_formality) ∷ [];
        alerts = (notify tenant none w).alerts;
      }
  unfolding handle_turn take_action veto_expiry resolve_guardrail send_texts send_actions
      send_action is_blank notify
  handle_turn-handoff tenant s h o a =
      elim (Bool-cases (tenant.alerts_enabled && truthy tenant.alert_phone)) [
        | inl on ↦ rw (asks_for_person s h o a, on) refl
        | inr off ↦ rw (asks_for_person s h o a, off) refl
      ]
