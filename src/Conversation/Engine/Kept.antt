-- ===== src/Conversation/Engine/Kept.antt =====
-- What turns keep, and the score after a turn: the facts about the stored row, for whole turns.
use inmoagent.Prelude.{
  ℕ, true, Option, none, some, List, [], ◌∷◌, ◌≡◌, refl, sym, ◌∙◌, ap, subst, truthy,
}
use inmoagent.Domain.Lead.{human_handoff, Lead, Tenant}
use inmoagent.Domain.Extraction.{ExtractionResult}
use inmoagent.Conversation.Types.{text, opt_out_confirmation, handoff_farewell}
use inmoagent.Conversation.World.{Env, World, notify}
use inmoagent.Conversation.Guardrails.{
  GuardrailAction, opt_out, handoff, silenced, handoff_timeout_release, session_expired, continue,
  evaluate,
}
use inmoagent.Conversation.Engine.{reformulate, answer, run_turn, take_action, handle_turn}
use inmoagent.Conversation.Engine.Sending.{send_actions, send_texts}
use inmoagent.Conversation.Engine.Guarding.{
  GuardrailOutcome, veto_expiry, resolve_guardrail, reset_session,
}
use inmoagent.Conversation.Engine.Keycaps.{normalize_keycap_digits}
use inmoagent.Conversation.Engine.Frame.{notify-IsFramed}
use inmoagent.Conversation.Engine.Whitelist.{send_actions-lead}
use inmoagent.Conversation.Engine.Stored.{IsScored, answer-IsScored, answer-name, answer-handoff_at}
use inmoagent.Conversation.Engine.Transitions.{handle_turns}

run_turn-answers :
    (env : Env) (tenant : Tenant) (turn_text : List ℕ) (outcome : GuardrailOutcome) (lead : Lead)
    (w : World) (extraction : ExtractionResult)
    → env.extract_intent (outcome.lead_update lead) turn_text ≡ some extraction
    → run_turn env tenant turn_text outcome lead w
      ≡ answer env tenant turn_text outcome (outcome.lead_update lead) extraction w
unfolding run_turn
run_turn-answers env tenant turn_text outcome lead w extraction found =
    ap
      (λ o. elim o as (λ _. World) [
        | none ↦ reformulate env tenant outcome lead (outcome.lead_update lead) w
        | some e ↦ answer env tenant turn_text outcome (outcome.lead_update lead) e w
      ])
      found

-- A turn that no guardrail takes and whose text the model reads stores the score and the label of
-- the row as it stores it.
pub handle_turn-IsScored :
    (env : Env) (tenant : Tenant) (raw : List ℕ) (w : World) (extraction : ExtractionResult)
    → evaluate env.rules env.now w.lead (normalize_keycap_digits raw) ≡ continue
    → env.extract_intent w.lead (normalize_keycap_digits raw) ≡ some extraction
    → IsScored (handle_turn env (some tenant) raw w).lead
unfolding resolve_guardrail
handle_turn-IsScored env tenant raw w extraction goes_on found =
    subst (λ w. IsScored w.lead)
      (sym (
        taken
        ∙ run_turn-answers env tenant turn_text (resolve_guardrail env.now w.lead continue) w.lead w
            extraction found))
      (answer-IsScored env tenant turn_text (resolve_guardrail env.now w.lead continue) w.lead
        extraction w refl refl)
  where
    turn_text : List ℕ
    turn_text = normalize_keycap_digits raw

    taken :
        handle_turn env (some tenant) raw w
        ≡ run_turn env tenant turn_text (resolve_guardrail env.now w.lead continue) w.lead w
    taken = unfold handle_turn take_action veto_expiry in rw goes_on refl

-- The turns that keep the name of a lead that has one.
abbrev KeepsName : World → World → Type 0
KeepsName w w' = w'.lead.name ≡ w.lead.name

module _ (env : Env) (tenant : Tenant) (turn_text : List ℕ) where
  run_turn-KeepsName :
      (outcome : GuardrailOutcome) (lead : Lead) (w : World)
      → ((l : Lead) → (outcome.lead_update l).name ≡ l.name)
      → truthy w.lead.name ≡ true
      → KeepsName w (run_turn env tenant turn_text outcome lead w)
  unfolding run_turn reformulate send_texts
  run_turn-KeepsName outcome lead w keeps h =
      by_extraction (env.extract_intent (outcome.lead_update lead) turn_text)
    where
      by_extraction :
          (found : Option ExtractionResult)
          → KeepsName w (elim found as (λ _. World) [
            | none ↦ reformulate env tenant outcome lead (outcome.lead_update lead) w
            | some extraction ↦
                answer env tenant turn_text outcome (outcome.lead_update lead) extraction w
          ])
      by_extraction none =
          keeps _ ∙ ap (λ l. l.name) (send_actions-lead env tenant (outcome.lead_update lead) _ w)
      by_extraction (some extraction) =
          answer-name env tenant turn_text outcome (outcome.lead_update lead) extraction w h

  take_action-KeepsName :
      (action : GuardrailAction) (w : World)
      → truthy w.lead.name ≡ true
      → KeepsName w (take_action env tenant turn_text w.lead action w)
  unfolding take_action resolve_guardrail reset_session send_texts send_actions
  take_action-KeepsName opt_out w h =
      ap (λ l. l.name) (send_actions-lead env tenant w.lead (text opt_out_confirmation ∷ []) w)
  take_action-KeepsName handoff w h =
      ap (λ l. l.name)
        (send_actions-lead env tenant w.lead (text handoff_farewell ∷ []) (notify tenant none w)
          ∙ (notify-IsFramed tenant none w).same_lead)
  take_action-KeepsName silenced w h = refl
  take_action-KeepsName handoff_timeout_release w h =
      run_turn-KeepsName (resolve_guardrail env.now w.lead handoff_timeout_release) w.lead w
        (λ l. refl) h
  take_action-KeepsName session_expired w h =
      run_turn-KeepsName (resolve_guardrail env.now w.lead session_expired) w.lead
        (record w { lead = reset_session w.lead }) (λ l. refl) h
  take_action-KeepsName continue w h =
      run_turn-KeepsName (resolve_guardrail env.now w.lead continue) w.lead w (λ l. refl) h

handle_turn-name :
    (env : Env) (tenant : Option Tenant) (raw : List ℕ) (w : World)
    → truthy w.lead.name ≡ true
    → (handle_turn env tenant raw w).lead.name ≡ w.lead.name
unfolding handle_turn
handle_turn-name env none raw w h = refl
handle_turn-name env (some tenant) raw w h = take_action-KeepsName env tenant _ _ w h

-- A name, once the row has one, is never overwritten or lost, whatever turns follow: not by a
-- later name that the model extracts, nor by the reset of an expired session.
pub handle_turns-name :
    (tenant : Option Tenant) (turns : List (Env × List ℕ)) (w : World)
    → truthy w.lead.name ≡ true
    → (handle_turns tenant turns w).lead.name ≡ w.lead.name
unfolding handle_turns
handle_turns-name tenant [] w h = refl
handle_turns-name tenant ((env, raw) ∷ turns) w h =
    let kept = handle_turn-name env tenant raw w h in
    handle_turns-name tenant turns (handle_turn env tenant raw w) (ap truthy kept ∙ h) ∙ kept

released_turn :
    (env : Env) (tenant : Tenant) (raw : List ℕ) (w : World) (extraction : ExtractionResult)
    → evaluate env.rules env.now w.lead (normalize_keycap_digits raw) ≡ handoff_timeout_release
    → env.extract_intent
        ((resolve_guardrail env.now w.lead handoff_timeout_release).lead_update w.lead)
        (normalize_keycap_digits raw)
      ≡ some extraction
    → handle_turn env (some tenant) raw w
      ≡ answer env tenant
          (normalize_keycap_digits raw)
          (resolve_guardrail env.now w.lead handoff_timeout_release)
          ((resolve_guardrail env.now w.lead handoff_timeout_release).lead_update w.lead)
          extraction
          w
released_turn env tenant raw w extraction out found =
    taken
    ∙ run_turn-answers env tenant (normalize_keycap_digits raw)
        (resolve_guardrail env.now w.lead handoff_timeout_release) w.lead w extraction found
  where
    taken :
        handle_turn env (some tenant) raw w
        ≡ run_turn env tenant
            (normalize_keycap_digits raw)
            (resolve_guardrail env.now w.lead handoff_timeout_release)
            w.lead
            w
    taken = unfold handle_turn take_action veto_expiry resolve_guardrail in rw out refl

-- The turn that releases a lead from a handoff that timed out does not clear the start of the
-- handoff: if the model reads the text, the row keeps the old time, also where the turn hands the
-- lead over again.
pub handle_turn-stale_handoff :
    (env : Env) (tenant : Tenant) (raw : List ℕ) (w : World) (extraction : ExtractionResult)
    → w.lead.state ≡ human_handoff
    → evaluate env.rules env.now w.lead (normalize_keycap_digits raw) ≡ handoff_timeout_release
    → env.extract_intent
        ((resolve_guardrail env.now w.lead handoff_timeout_release).lead_update w.lead)
        (normalize_keycap_digits raw)
      ≡ some extraction
    → (handle_turn env (some tenant) raw w).lead.handoff_at ≡ w.lead.handoff_at
handle_turn-stale_handoff env tenant raw w extraction s out found =
    ap (λ v. v.lead.handoff_at) (released_turn env tenant raw w extraction out found)
    ∙ answer-handoff_at env tenant (normalize_keycap_digits raw)
        (resolve_guardrail env.now w.lead handoff_timeout_release)
        ((resolve_guardrail env.now w.lead handoff_timeout_release).lead_update w.lead) extraction w
        s
