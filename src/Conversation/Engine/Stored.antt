-- ===== src/Conversation/Engine/Stored.antt =====
-- The row that a turn stores.
use inmoagent.Prelude.{
  ℕ, ◌+◌, String, true, Option, none, some, List, ◌++◌, map, ◌≡◌, refl, sym, ◌∙◌, ap, subst, arith,
  truthy,
}
use inmoagent.Domain.Lead.{human_handoff, Lead, Tenant}
use inmoagent.Domain.Extraction.{ExtractionResult}
use inmoagent.Conversation.Types.{LeadFilters, text, HandlerResult}
use inmoagent.Conversation.World.{Env, World}
use inmoagent.Conversation.Filters.{current_filters_from, merge_filters}
use inmoagent.Conversation.Score.{calculate_lead_score}
use inmoagent.Conversation.Score.Laws.{SameScored, calculate_lead_score_cong}
use inmoagent.Conversation.Engine.{turn_filters, turn_result, answer}
use inmoagent.Conversation.Engine.Guarding.{GuardrailOutcome}
use inmoagent.Conversation.Engine.Persist.{
  write_filters, write_commercial, write_turn, scored_lead, label_text, persist_lead_update,
}
use inmoagent.Conversation.Engine.Frame.{IsFramed, resolve_result-IsFramed}
use inmoagent.Conversation.Engine.Storable.{IsStorable, resolve_result-IsStorable}
use inmoagent.Conversation.Engine.Whitelist.{send_actions-lead}

-- Where the filters have no operation or no budget, neither has the row.
record Covers (filters : LeadFilters) (lead : Lead) : Type 0 where
  operation : filters.f_operation ≡ none → lead.f_operation ≡ none
  budget : filters.f_max_price ≡ none → lead.f_max_price ≡ none

turn_filters-Covers :
    (env : Env) (lead : Lead) (extraction : ExtractionResult) (turn_text : List ℕ) (n : ℕ)
    → Covers (turn_filters env lead extraction turn_text n) lead
unfolding turn_filters merge_filters current_filters_from
turn_filters-Covers env lead extraction turn_text n = record {
  operation = ground arith;
  budget = ground arith;
}

module _ (now : ℕ) (filters : LeadFilters) (lead : Lead) (result : HandlerResult) (n : ℕ)
    (name : Option String) where
  persist-SameScored :
      IsStorable filters result
      → Covers filters lead
      → SameScored (persist_lead_update now lead result n name lead) (scored_lead lead result name)
  unfolding persist_lead_update write_commercial write_filters write_turn scored_lead
  persist-SameScored storable covers = record {
    name = ground arith;
    operation = ground arith;
    max_price = ground arith;
    asked = ground arith;
    timeline = ground arith;
    guarantee = ground arith;
    payment = ground arith;
    signal = ground arith;
  }

  persist-scored :
      IsStorable filters result
      → Covers filters lead
      → let row = persist_lead_update now lead result n name lead in
        let score = calculate_lead_score row in
        (row.q_score ≡ some score.score) × (row.q_score_label ≡ some (label_text score.label))
  persist-scored storable covers =
      let same = calculate_lead_score_cong _ _ (persist-SameScored storable covers) in
      (
        stored_score ∙ ap (λ r. some r.score) (sym same),
        stored_label ∙ ap (λ r. some (label_text r.label)) (sym same),
      )
    where
      row : Lead
      row = persist_lead_update now lead result n name lead

      stored_score : row.q_score ≡ some (calculate_lead_score (scored_lead lead result name)).score
      stored_score = unfold persist_lead_update in refl

      stored_label :
          row.q_score_label
          ≡ some (label_text (calculate_lead_score (scored_lead lead result name)).label)
      stored_label = unfold persist_lead_update in refl

persist-handoff_at :
    (now : ℕ) (lead : Lead) (result : HandlerResult) (n : ℕ) (name : Option String)
    → lead.state ≡ human_handoff
    → (persist_lead_update now lead result n name lead).handoff_at ≡ lead.handoff_at
unfolding persist_lead_update write_commercial write_filters write_turn
persist-handoff_at now lead result n name h = ground arith

persist-name :
    (now : ℕ) (lead : Lead) (result : HandlerResult) (n : ℕ) (name : Option String)
    → truthy lead.name ≡ true
    → (persist_lead_update now lead result n name lead).name ≡ lead.name
unfolding persist_lead_update write_commercial write_filters write_turn
persist-name now lead result n name h = ground arith

-- The score and the label of a row are those that its other fields give.
abbrev pub IsScored : Lead → Type 0
IsScored row =
    let score = calculate_lead_score row in
    (row.q_score ≡ some score.score) × (row.q_score_label ≡ some (label_text score.label))

module _ (env : Env) (tenant : Tenant) (turn_text : List ℕ) (outcome : GuardrailOutcome)
    (effective : Lead) (extraction : ExtractionResult) (w : World) where
  answer-lead :
      let r = turn_result env tenant turn_text effective extraction w in
      (answer env tenant turn_text outcome effective extraction w).lead
      ≡ persist_lead_update env.now r.1.lead r.0 (effective.turn_count + 1) extraction.name r.1.lead
  unfolding answer
  answer-lead =
      let r = turn_result env tenant turn_text effective extraction w in
      ap (persist_lead_update env.now r.1.lead r.0 (effective.turn_count + 1) extraction.name)
        (send_actions-lead env tenant r.1.lead (map text outcome.replies ++ r.0.actions) r.1)

  turn_result-IsFramed : IsFramed w (turn_result env tenant turn_text effective extraction w).1
  unfolding turn_result
  turn_result-IsFramed = resolve_result-IsFramed env _ _ effective w

  turn_result-IsStorable :
      IsStorable
        (turn_filters env effective extraction turn_text (effective.turn_count + 1))
        (turn_result env tenant turn_text effective extraction w).0
  unfolding turn_result
  turn_result-IsStorable = resolve_result-IsStorable env _ _ w effective

  turn_result-Covers :
      effective.f_operation ≡ w.lead.f_operation
      → effective.f_max_price ≡ w.lead.f_max_price
      → Covers
          (turn_filters env effective extraction turn_text (effective.turn_count + 1))
          (turn_result env tenant turn_text effective extraction w).1.lead
  turn_result-Covers o b =
      let covers =
        turn_filters-Covers env effective extraction turn_text (effective.turn_count + 1) in
      let same = turn_result-IsFramed.same_lead in
      record {
        operation = λ e. ap (λ l. l.f_operation) same ∙ sym o ∙ covers.operation e;
        budget = λ e. ap (λ l. l.f_max_price) same ∙ sym b ∙ covers.budget e;
      }

  -- The score and the label that an answered turn stores are those of the row as it is stored, if
  -- the row that the guardrails left has the operation and the budget of the row in the database.
  pub answer-IsScored :
      effective.f_operation ≡ w.lead.f_operation
      → effective.f_max_price ≡ w.lead.f_max_price
      → IsScored (answer env tenant turn_text outcome effective extraction w).lead
  answer-IsScored o b =
      subst IsScored (sym answer-lead)
        (persist-scored env.now _ _ _ _ _ turn_result-IsStorable (turn_result-Covers o b))

  pub answer-name :
      truthy w.lead.name ≡ true
      → (answer env tenant turn_text outcome effective extraction w).lead.name ≡ w.lead.name
  answer-name h =
      let same = ap (λ l. l.name) turn_result-IsFramed.same_lead in
      ap (λ l. l.name) answer-lead ∙ persist-name env.now _ _ _ _ (ap truthy same ∙ h) ∙ same

  -- A lead that the row has in human handoff keeps the start of it.
  pub answer-handoff_at :
      w.lead.state ≡ human_handoff
      → (answer env tenant turn_text outcome effective extraction w).lead.handoff_at
        ≡ w.lead.handoff_at
  answer-handoff_at h =
      let same = turn_result-IsFramed.same_lead in
      ap (λ l. l.handoff_at) answer-lead
      ∙ persist-handoff_at env.now _ _ _ _ (ap (λ l. l.state) same ∙ h)
      ∙ ap (λ l. l.handoff_at) same
