-- ===== src/Conversation/Engine/Transitions.antt =====
-- From one turn to a whole conversation: the states that turns lead to.
use inmoagent.Prelude.{
  ℕ, String, Option, none, some, List, [], ◌∷◌, ◌≡◌, ◌≢◌, refl, sym, ◌∙◌, ap, subst, arith, inl,
  inr,
}
use inmoagent.Domain.Lead.{
  ConversationState, greeting, scheduling, human_handoff, opted_out, Lead, Tenant,
}
use inmoagent.Domain.Extraction.{ExtractionResult}
use inmoagent.Conversation.Types.{HandlerResult, TextRules}
use inmoagent.Conversation.World.{Env, World}
use inmoagent.Conversation.Release.{resolve_release_state}
use inmoagent.Conversation.Guardrails.{
  GuardrailAction, opt_out, handoff, silenced, handoff_timeout_release, session_expired, continue,
  evaluate,
}
use inmoagent.Conversation.Engine.{
  reformulate, turn_result, answer, run_turn, take_action, handle_turn,
}
use inmoagent.Conversation.Engine.Sending.{send_actions, send_texts}
use inmoagent.Conversation.Engine.Guarding.{
  GuardrailOutcome, veto_expiry, resolve_guardrail, reset_session,
}
use inmoagent.Conversation.Engine.Whitelist.{send_actions-lead}
use inmoagent.Conversation.Engine.Persist.{
  write_filters, write_commercial, write_turn, persist_lead_update,
}
use inmoagent.Conversation.Engine.Silence.{handle_turn-opted_out}
use inmoagent.Conversation.Engine.States.{
  HandlerStep, stays, greeting_qualifies, greeting_searches, qualification_searches,
  search_qualifies, search_asks, search_hands_over, commercial_qualifies, commercial_searches,
  commercial_hands_over, scheduling_hands_over, InSearch, resolve_result-HandlerStep,
}

-- The bot answers in this state.
abbrev pub IsActive : ConversationState → Type 0
IsActive s = (s ≢ human_handoff) × (s ≢ opted_out)

-- What a turn does to the state.
pub data TurnStep : ConversationState → ConversationState → Type 0 where
  silent : {s : ConversationState} → TurnStep s s
  handled : {s t : ConversationState} → HandlerStep s t → TurnStep s t
  opts_out : {s : ConversationState} → s ≢ opted_out → TurnStep s opted_out
  hands_over : {s : ConversationState} → IsActive s → TurnStep s human_handoff
  released : {r t : ConversationState} → InSearch r → HandlerStep r t → TurnStep human_handoff t
  expires : {s t : ConversationState} → IsActive s → HandlerStep greeting t → TurnStep s t

-- The states in which an action of the guardrails is taken.
abbrev Allows : ConversationState → GuardrailAction → Type 0
Allows s opt_out = s ≢ opted_out
Allows s handoff = IsActive s
Allows s silenced = Unit
Allows s handoff_timeout_release = s ≡ human_handoff
Allows s session_expired = IsActive s
Allows s continue = IsActive s

evaluate-Allows :
    (rules : TextRules) (now : ℕ) (lead : Lead) (turn_text : List ℕ)
    → Allows lead.state (evaluate rules now lead turn_text)
unfolding evaluate
evaluate-Allows rules now lead turn_text = ground arith

veto-Allows :
    (lead : Lead) (w : World) (s : ConversationState) (action : GuardrailAction)
    → Allows s action
    → Allows s (veto_expiry lead w action)
unfolding veto_expiry
veto-Allows lead w s session_expired h = ground arith
veto-Allows lead w s opt_out h = h
veto-Allows lead w s handoff h = h
veto-Allows lead w s silenced h = h
veto-Allows lead w s handoff_timeout_release h = h
veto-Allows lead w s continue h = h

persist-state :
    (now : ℕ) (lead : Lead) (result : HandlerResult) (n : ℕ) (name : Option String) (row : Lead)
    → (persist_lead_update now lead result n name row).state ≡ result.next_state
unfolding persist_lead_update write_commercial write_filters write_turn
persist-state now lead result n name row = ground arith

release-InSearch : (lead : Lead) → InSearch (resolve_release_state lead)
unfolding resolve_release_state
release-InSearch lead = ground arith

module _ (env : Env) (tenant : Tenant) (turn_text : List ℕ) (outcome : GuardrailOutcome) where
  answer-HandlerStep :
      (effective : Lead) (extraction : ExtractionResult) (w : World)
      → HandlerStep effective.state
          (answer env tenant turn_text outcome effective extraction w).lead.state
  unfolding answer turn_result
  answer-HandlerStep effective extraction w =
      subst (HandlerStep effective.state) (sym (persist-state _ _ _ _ _ _))
        (resolve_result-HandlerStep env _ _ w effective)

  run_turn-HandlerStep :
      (lead : Lead) (w : World)
      → (outcome.lead_update w.lead).state ≡ (outcome.lead_update lead).state
      → HandlerStep
          (outcome.lead_update lead).state
          (run_turn env tenant turn_text outcome lead w).lead.state
  unfolding run_turn reformulate send_texts
  run_turn-HandlerStep lead w h = by_extraction (env.extract_intent effective turn_text)
    where
      effective : Lead
      effective = outcome.lead_update lead

      by_extraction :
          (found : Option ExtractionResult)
          → HandlerStep effective.state
              (elim found as (λ _. World) [
                | none ↦ reformulate env tenant outcome lead effective w
                | some extraction ↦ answer env tenant turn_text outcome effective extraction w
              ]).lead.state
      by_extraction none =
          subst (HandlerStep effective.state)
            (sym (ap (λ l. (outcome.lead_update l).state) (send_actions-lead env tenant _ _ w) ∙ h))
            stays
      by_extraction (some extraction) = answer-HandlerStep effective extraction w

released_from :
    (lead : Lead) {s t : ConversationState}
    → s ≡ human_handoff
    → HandlerStep (resolve_release_state lead) t
    → TurnStep s t
released_from lead {s} {t} e step =
    subst (λ s. TurnStep s t) (sym e) (released (release-InSearch lead) step)

take_action-TurnStep :
    (env : Env) (tenant : Tenant) (turn_text : List ℕ) (action : GuardrailAction) (w : World)
    → Allows w.lead.state action
    → TurnStep w.lead.state (take_action env tenant turn_text w.lead action w).lead.state
unfolding take_action resolve_guardrail reset_session send_texts send_actions
take_action-TurnStep env tenant turn_text opt_out w h = opts_out h
take_action-TurnStep env tenant turn_text handoff w h = hands_over h
take_action-TurnStep env tenant turn_text silenced w h = silent
take_action-TurnStep env tenant turn_text handoff_timeout_release w h = released_from w.lead h (
    run_turn-HandlerStep env tenant turn_text
      (resolve_guardrail env.now w.lead handoff_timeout_release) w.lead w refl)
take_action-TurnStep env tenant turn_text session_expired w h = expires h (
    run_turn-HandlerStep env tenant turn_text (resolve_guardrail env.now w.lead session_expired)
      w.lead (record w { lead = reset_session w.lead }) refl)
take_action-TurnStep env tenant turn_text continue w h =
    handled (run_turn-HandlerStep env tenant turn_text _ w.lead w refl)

-- Whatever a turn brings, the state moves along the state machine: it stays, a handler's step is
-- taken, an opt-out or a request for a person takes over, a handoff is released to the search, or
-- an expired session begins again at the greeting.
pub handle_turn-TurnStep :
    (env : Env) (tenant : Option Tenant) (raw : List ℕ) (w : World)
    → TurnStep w.lead.state (handle_turn env tenant raw w).lead.state
unfolding handle_turn
handle_turn-TurnStep env none raw w = silent
handle_turn-TurnStep env (some tenant) raw w =
    take_action-TurnStep env tenant _ _ w
      (veto-Allows w.lead w w.lead.state _ (evaluate-Allows env.rules env.now w.lead _))

-- The turns of a conversation, one after the other; each has its own environment.
unfoldable pub handle_turns : Option Tenant → List (Env × List ℕ) → World → World
handle_turns tenant [] w = w
handle_turns tenant ((env, raw) ∷ turns) w =
    handle_turns tenant turns (handle_turn env tenant raw w)

HandlerStep-scheduling :
    {s t : ConversationState} → HandlerStep s t → s ≢ scheduling → t ≢ scheduling
HandlerStep-scheduling stays h = h
HandlerStep-scheduling greeting_qualifies h = λ e. cc
HandlerStep-scheduling greeting_searches h = λ e. cc
HandlerStep-scheduling qualification_searches h = λ e. cc
HandlerStep-scheduling search_qualifies h = λ e. cc
HandlerStep-scheduling search_asks h = λ e. cc
HandlerStep-scheduling search_hands_over h = λ e. cc
HandlerStep-scheduling commercial_qualifies h = λ e. cc
HandlerStep-scheduling commercial_searches h = λ e. cc
HandlerStep-scheduling commercial_hands_over h = λ e. cc
HandlerStep-scheduling scheduling_hands_over h = λ e. cc

TurnStep-scheduling : {s t : ConversationState} → TurnStep s t → s ≢ scheduling → t ≢ scheduling
TurnStep-scheduling silent h = h
TurnStep-scheduling (handled step) h = HandlerStep-scheduling step h
TurnStep-scheduling (opts_out _) h = λ e. cc
TurnStep-scheduling (hands_over _) h = λ e. cc
TurnStep-scheduling (released (inl r) step) h = HandlerStep-scheduling step (λ e. cc)
TurnStep-scheduling (released (inr r) step) h = HandlerStep-scheduling step (λ e. cc)
TurnStep-scheduling (expires _ step) h = HandlerStep-scheduling step (λ e. cc)

-- SCHEDULING is never entered: a conversation that is not in it is not in it after any turns.
pub handle_turns-scheduling :
    (tenant : Option Tenant) (turns : List (Env × List ℕ)) (w : World)
    → w.lead.state ≢ scheduling
    → (handle_turns tenant turns w).lead.state ≢ scheduling
unfolding handle_turns
handle_turns-scheduling tenant [] w h = h
handle_turns-scheduling tenant ((env, raw) ∷ turns) w h =
    handle_turns-scheduling tenant turns (handle_turn env tenant raw w)
      (TurnStep-scheduling (handle_turn-TurnStep env tenant raw w) h)

-- OPTED_OUT is final: after any turns the lead, what was sent and all else are as they were.
pub handle_turns-opted_out :
    (tenant : Option Tenant) (turns : List (Env × List ℕ)) (w : World)
    → w.lead.state ≡ opted_out
    → handle_turns tenant turns w ≡ w
unfolding handle_turns
handle_turns-opted_out tenant [] w h = refl
handle_turns-opted_out tenant ((env, raw) ∷ turns) w h =
    rw (handle_turn-opted_out env raw w tenant h) (handle_turns-opted_out tenant turns w h)
