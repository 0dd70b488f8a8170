-- ===== src/Conversation/Engine/Whitelist.antt =====
-- Which properties a turn can show.
use inmoagent.Prelude.{
  ℕ, String, true, Option, none, some, List, [], ◌∷◌, ◌≡◌, refl, sym, ap, ◌∙◌, subst, arith, inl,
  inr, Bool-cases, Option-cases, get_elem?, includes, All, All-append,
}
use inmoagent.Domain.Property.{Property}
use inmoagent.Domain.Lead.{Lead, Tenant}
use inmoagent.Domain.Extraction.{ExtractionResult}
use inmoagent.Conversation.Types.{HandlerResult, OutgoingAction, text, property, Text}
use inmoagent.Conversation.World.{
  Env, World, Caption, Sent, sent_text, sent_caption, sent_image, notify,
}
use inmoagent.Conversation.SafeReply.{is_property_whitelisted}
use inmoagent.Conversation.Guardrails.{
  GuardrailAction, opt_out, handoff, silenced, handoff_timeout_release, session_expired, continue,
}
use inmoagent.Conversation.Engine.{
  reformulate, turn_result, answer, run_turn, take_action, handle_turn,
}
use inmoagent.Conversation.Engine.Sending.{
  is_blank, property_message, send_action, send_actions, send_texts,
}
use inmoagent.Conversation.Engine.Persist.{
  write_filters, write_commercial, write_turn, persist_lead_update,
}
use inmoagent.Conversation.Engine.Guarding.{GuardrailOutcome, resolve_guardrail}
use inmoagent.Conversation.Engine.Frame.{notify-IsFramed, resolve_result-IsFramed}

-- A message shows no property, or one whose id is listed.
abbrev pub IsListed : List String → Sent → Type 0
IsListed ids (sent_text t) = Unit
IsListed ids (sent_caption c) = includes ids c.of_property.id ≡ true
IsListed ids (sent_image url c) = includes ids c.of_property.id ≡ true

property_message-IsListed :
    (ids : List String) (p : Property) (c : Caption)
    → c.of_property ≡ p
    → includes ids p.id ≡ true
    → IsListed ids (property_message p c)
unfolding property_message
property_message-IsListed ids p c e h = elim (Option-cases (get_elem? p.photos 0)) [
  | inl none_there ↦ rw (property_message, none_there, e) h
  | inr (url, there) ↦ rw (property_message, there, e) h
]

module _ (env : Env) (tenant : Tenant) (lead : Lead) where
  send_action-IsListed :
      (action : OutgoingAction) (w : World)
      → All (IsListed lead.last_search_ids) w.sent
      → All (IsListed lead.last_search_ids) (send_action env tenant lead action w).sent
  unfolding send_action is_property_whitelisted
  send_action-IsListed (text t) w h = elim (Bool-cases (is_blank t)) [
    | inl e ↦ rw e h
    | inr e ↦ rw e (All-append _ w.sent _ h (tt, tt))
  ]
  send_action-IsListed (property p index filters) w h =
      elim (Bool-cases (includes lead.last_search_ids p.id)) [
        | inl e ↦ rw e (All-append _ w.sent _ h (property_message-IsListed _ p _ refl e, tt))
        | inr e ↦ rw e h
      ]

  send_actions-IsListed :
      (actions : List OutgoingAction) (w : World)
      → All (IsListed lead.last_search_ids) w.sent
      → All (IsListed lead.last_search_ids) (send_actions env tenant lead actions w).sent
  unfolding send_actions
  send_actions-IsListed [] w h = h
  send_actions-IsListed (action ∷ rest) w h =
      send_actions-IsListed rest (send_action env tenant lead action w)
        (send_action-IsListed action w h)

  send_action-lead :
      (action : OutgoingAction) (w : World) → (send_action env tenant lead action w).lead ≡ w.lead
  unfolding send_action
  send_action-lead (text t) w = ground arith
  send_action-lead (property p index filters) w = ground arith

  pub send_actions-lead :
      (actions : List OutgoingAction) (w : World)
      → (send_actions env tenant lead actions w).lead ≡ w.lead
  unfolding send_actions
  send_actions-lead [] w = refl
  send_actions-lead (action ∷ rest) w =
      send_actions-lead rest (send_action env tenant lead action w) ∙ send_action-lead action w

persist-last_search_ids :
    (now : ℕ) (lead : Lead) (result : HandlerResult) (n : ℕ) (name : Option String) (row : Lead)
    → (persist_lead_update now lead result n name row).last_search_ids ≡ row.last_search_ids
unfolding persist_lead_update write_commercial write_filters write_turn
persist-last_search_ids now lead result n name row = ground arith

text-IsListed :
    (env : Env) (tenant : Tenant) (lead : Lead) (ids : List String) (t : Text) (w : World)
    → All (IsListed ids) w.sent
    → All (IsListed ids) (send_action env tenant lead (text t) w).sent
unfolding send_action
text-IsListed env tenant lead ids t w h = elim (Bool-cases (is_blank t)) [
  | inl e ↦ rw e h
  | inr e ↦ rw e (All-append _ w.sent _ h (tt, tt))
]

texts-IsListed :
    (env : Env) (tenant : Tenant) (lead : Lead) (ids : List String) (texts : List Text) (w : World)
    → All (IsListed ids) w.sent
    → All (IsListed ids) (send_texts env tenant lead texts w).sent
unfolding send_texts send_actions
texts-IsListed env tenant lead ids [] w h = h
texts-IsListed env tenant lead ids (t ∷ texts) w h =
    texts-IsListed env tenant lead ids texts (send_action env tenant lead (text t) w)
      (text-IsListed env tenant lead ids t w h)

-- A turn, begun with nothing queued, has queued only messages that the row allows at its end.
abbrev EndsListed : World → Type 0
EndsListed w = All (IsListed w.lead.last_search_ids) w.sent

module _ (env : Env) (tenant : Tenant) (turn_text : List ℕ) (outcome : GuardrailOutcome) where
  send_and_persist-EndsListed :
      (actions : List OutgoingAction) (result : HandlerResult) (n : ℕ) (name : Option String)
      (w : World)
      → w.sent ≡ []
      → let w₂ = send_actions env tenant w.lead actions w in
        All
          (IsListed (persist_lead_update env.now w.lead result n name w₂.lead).last_search_ids)
          w₂.sent
  send_and_persist-EndsListed actions result n name w h =
      let w₂ = send_actions env tenant w.lead actions w in
      subst (λ ids. All (IsListed ids) w₂.sent)
        (sym (
          persist-last_search_ids env.now w.lead result n name w₂.lead
          ∙ ap (λ l. l.last_search_ids) (send_actions-lead env tenant w.lead actions w)))
        (send_actions-IsListed env tenant w.lead actions w (rw h tt))

  answer-EndsListed :
      (effective : Lead) (extraction : ExtractionResult) (w : World)
      → w.sent ≡ []
      → EndsListed (answer env tenant turn_text outcome effective extraction w)
  unfolding answer turn_result
  answer-EndsListed effective extraction w h =
      send_and_persist-EndsListed _ _ _ _ _
        ((resolve_result-IsFramed env _ _ effective w).same_sent ∙ h)

  run_turn-EndsListed :
      (lead : Lead) (w : World)
      → w.sent ≡ []
      → EndsListed (run_turn env tenant turn_text outcome lead w)
  unfolding run_turn reformulate
  run_turn-EndsListed lead w h =
      by_extraction (env.extract_intent (outcome.lead_update lead) turn_text)
    where
      by_extraction :
          (found : Option ExtractionResult)
          → EndsListed (elim found [
            | none ↦ reformulate env tenant outcome lead (outcome.lead_update lead) w
            | some extraction ↦
                answer env tenant turn_text outcome (outcome.lead_update lead) extraction w
          ])
      by_extraction none = texts-IsListed env tenant _ _ _ w (rw h tt)
      by_extraction (some extraction) = answer-EndsListed (outcome.lead_update lead) extraction w h

take_action-EndsListed :
    (env : Env) (tenant : Tenant) (turn_text : List ℕ) (lead : Lead) (action : GuardrailAction)
    (w : World)
    → w.sent ≡ []
    → EndsListed (take_action env tenant turn_text lead action w)
unfolding take_action resolve_guardrail
take_action-EndsListed env tenant turn_text lead opt_out w h =
    texts-IsListed env tenant _ _ _ w (rw h tt)
take_action-EndsListed env tenant turn_text lead handoff w h =
    texts-IsListed env tenant _ _ _ (notify tenant none w)
      (rw ((notify-IsFramed tenant none w).same_sent, h) tt)
take_action-EndsListed env tenant turn_text lead silenced w h =
    texts-IsListed env tenant _ _ _ w (rw h tt)
take_action-EndsListed env tenant turn_text lead handoff_timeout_release w h =
    run_turn-EndsListed env tenant turn_text _ lead w h
take_action-EndsListed env tenant turn_text lead session_expired w h =
    run_turn-EndsListed env tenant turn_text _ lead _ h
take_action-EndsListed env tenant turn_text lead continue w h =
    run_turn-EndsListed env tenant turn_text _ lead w h

-- A turn that starts with nothing queued shows only properties whose ids are, at its end, in the
-- row's `lastSearchIds`.
pub handle_turn-whitelisted :
    (env : Env) (tenant : Tenant) (raw : List ℕ) (w : World)
    → w.sent ≡ []
    → let w' = handle_turn env (some tenant) raw w in All (IsListed w'.lead.last_search_ids) w'.sent
unfolding handle_turn
handle_turn-whitelisted env tenant raw w h = take_action-EndsListed env tenant _ w.lead _ w h
