-- ===== src/Conversation/Handlers/Commercial/Progress.antt =====
-- One round of the commercial questions: either the visit is proposed, or one question is asked.
use inmoagent.Prelude.{
  ◌+◌, ◌≤◌, String, Option, none, [], ◌∷◌, ◌++◌, ◌≡◌, ◌⊎◌, inl, inr, arith, Option-cases, length,
  length-append,
}
use inmoagent.Domain.Lead.{commercial_qualification, human_handoff, CommercialField}
use inmoagent.Conversation.Types.{LeadFilters, HandlerContext, text, commercial_question}
use inmoagent.Conversation.Handlers.Scheduling.{lead_seed}
use inmoagent.Conversation.World.{Env, World}
use inmoagent.Conversation.Engine.Persist.{write_commercial}
use inmoagent.Conversation.Handlers.Scheduling.Effects.{
  enter_scheduling_effects, length-enter_scheduling,
}
use inmoagent.Conversation.Handlers.Commercial.{
  question_order, next_field_to_ask, merged_fields, answered_update, pending_id,
  resolve_pending_property, process,
}
use inmoagent.Conversation.Handlers.Commercial.Questions.{IsOpen, next_field_to_ask_sound}

module _ (env : Env) (ctx : HandlerContext) (filters : LeadFilters) (extra : Option (Option String))
    (w : World) where
  -- The visit is proposed: one appointment more, and the conversation goes to a person.
  pub record Proposes : Type 0 where
    pub handed_over : (process env ctx filters extra w).0.next_state ≡ human_handoff
    pub one_more :
        length (process env ctx filters extra w).1.appointments ≡ length w.appointments + 1

  -- One question more is sent, alone, and stored as asked.
  pub record Asks : Type 0 where
    pub stays : (process env ctx filters extra w).0.next_state ≡ commercial_qualification
    pub untouched : (process env ctx filters extra w).1 ≡ w
    pub field : CommercialField
    pub asked :
        (process env ctx filters extra w).0.actions
        ≡ text (commercial_question field (lead_seed ctx)) ∷ []
    pub open_field :
        IsOpen
          (question_order ctx.lead.f_operation)
          ctx.lead.q_asked_fields
          (merged_fields ctx.lead ctx.extraction)
          field
    pub stored :
        (write_commercial
          (process env ctx filters extra w).0.commercial_update
          ctx.lead).q_asked_fields
        ≡ ctx.lead.q_asked_fields ++ field ∷ []
    pub at_most_two : length (ctx.lead.q_asked_fields ++ field ∷ []) ≤ 2

  proposal :
      next_field_to_ask ctx.lead.f_operation
          (merged_fields ctx.lead ctx.extraction)
          ctx.lead.q_asked_fields
        ≡ none
      → Proposes
  unfolding process
  proposal done =
      let property = resolve_pending_property env (pending_id extra ctx.lead.pending_property_id) in
      let effects = enter_scheduling_effects env ctx property w in
      record {
        handed_over = rw (process, done) effects.2;
        one_more = rw (process, done) (length-enter_scheduling env ctx property w);
      }

  -- One round of the commercial questions either proposes exactly one appointment and hands over
  -- to a person, or changes nothing and sends one question and nothing else, which is stored as asked:
  -- it is one of the operation's, not asked before and not answered, and with it at most two have been
  -- asked.
  pub process_progress : Proposes ⊎ Asks
  unfolding process answered_update write_commercial
  process_progress =
      elim (Option-cases (
        next_field_to_ask ctx.lead.f_operation (merged_fields ctx.lead ctx.extraction)
          ctx.lead.q_asked_fields)) [
            | inl done ↦ inl (proposal done)
            | inr (field, next) ↦
                let sound = next_field_to_ask_sound ctx.lead.f_operation _ _ field next in
                inr (record {
                  stays = ground (arith, next);
                  untouched = ground (arith, next);
                  field = field;
                  asked = ground (arith, next);
                  open_field = sound.0;
                  stored = ground (arith, next);
                  at_most_two =
                      omega (arith, sound.1, length-append ctx.lead.q_asked_fields (field ∷ []));
                })
          ]
