-- ===== src/Conversation/Engine/Storable.antt =====
-- What a handler asks to be stored: the operation and the budget of the turn's filters, and never
-- a null in place of an answer of the lead.
use inmoagent.Prelude.{ℕ, String, Option, none, some, ◌≡◌, ◌≢◌, arith, inl, inr, Option-cases}
use inmoagent.Domain.Property.{OperationType}
use inmoagent.Domain.Lead.{
  ConversationState, greeting, qualification, search_match, commercial_qualification, scheduling,
  human_handoff, opted_out, Lead,
}
use inmoagent.Conversation.Types.{LeadFilters, HandlerContext, HandlerResult, CommercialUpdate}
use inmoagent.Conversation.World.{Env, World}
use inmoagent.Conversation.Handlers.Scheduling
use inmoagent.Conversation.Handlers.Qualification
use inmoagent.Conversation.Handlers.Qualification.Searching.{
  ask_missing_filter, trigger_search, trigger_teaser, no_results_reply, results_reply,
}
use inmoagent.Conversation.Handlers.Commercial
use inmoagent.Conversation.Handlers.SearchMatch
use inmoagent.Conversation.Handlers.Greeting
use inmoagent.Conversation.Engine.{dispatch, resolve_result}

abbrev KeepsFilters : LeadFilters → Option LeadFilters → Type 0
KeepsFilters filters none = Unit
KeepsFilters filters (some f) =
    (f.f_operation ≡ filters.f_operation) × (f.f_max_price ≡ filters.f_max_price)

abbrev KeepsAnswers : Option CommercialUpdate → Type 0
KeepsAnswers none = Unit
KeepsAnswers (some u) =
    (u.q_timeline ≢ some none) × (u.q_guarantee ≢ some none) × (u.q_payment_method ≢ some none)

pub record IsStorable (filters : LeadFilters) (result : HandlerResult) : Type 0 where
  pub keeps_filters : KeepsFilters filters result.filter_updates
  pub keeps_answers : KeepsAnswers result.commercial_update

module _ (env : Env) (ctx : HandlerContext) (filters : LeadFilters) where
  ask_missing_filter-IsStorable :
      (prefix : _) → IsStorable filters (ask_missing_filter env ctx filters prefix)
  unfolding ask_missing_filter
  ask_missing_filter-IsStorable prefix = record {
    keeps_filters = ground arith;
    keeps_answers = ground arith;
  }

  trigger_teaser-IsStorable :
      (operation : OperationType) (w : World)
      → IsStorable filters (trigger_teaser env ctx operation filters w).0
  unfolding trigger_teaser ask_missing_filter
  trigger_teaser-IsStorable operation w = record {
    keeps_filters = ground arith;
    keeps_answers = ground arith;
  }

  trigger_search-IsStorable :
      (operation : OperationType) (w : World)
      → IsStorable filters (trigger_search env ctx operation filters w).0
  unfolding trigger_search results_reply no_results_reply
  trigger_search-IsStorable operation w = record {
    keeps_filters = ground arith;
    keeps_answers = ground arith;
  }

  handle_stocked-IsStorable :
      (w : World) → IsStorable filters (Qualification.handle_stocked env ctx filters w).0
  unfolding Qualification.handle_stocked
  handle_stocked-IsStorable w =
      let asks = ask_missing_filter-IsStorable (Qualification.rooms_prefix ctx filters) in
      elim (Option-cases filters.f_operation) [
        | inl e ↦ record {
          keeps_filters = ground (arith, e, asks);
          keeps_answers = ground (arith, e, asks);
        }
        | inr (operation, e) ↦
            let teases = trigger_teaser-IsStorable operation w in
            let searches = trigger_search-IsStorable operation w in
            record {
              keeps_filters = ground (arith, e, asks, teases, searches);
              keeps_answers = ground (arith, e, asks, teases, searches);
            }
      ]

  qualification-IsStorable :
      (w : World) → IsStorable filters (Qualification.handle env ctx filters w).0
  unfolding Qualification.handle Qualification.suggest_alternative_zones
  qualification-IsStorable w = ground (arith, handle_stocked-IsStorable w)

  greeting-IsStorable : (w : World) → IsStorable filters (Greeting.handle env ctx filters w).0
  unfolding Greeting.handle Greeting.handle_unknown Greeting.ask_for_operation
      Qualification.suggest_alternative_zones
  greeting-IsStorable w = ground (arith, qualification-IsStorable w)

process-IsStorable :
    (env : Env) (ctx : HandlerContext) (filters : LeadFilters) (extra : Option (Option String))
    (w : World)
    → IsStorable filters (Commercial.process env ctx filters extra w).0
unfolding Commercial.process Scheduling.enter_scheduling Commercial.answered_update
process-IsStorable env ctx filters extra w = ground arith

module _ (env : Env) (ctx : HandlerContext) (filters : LeadFilters) (w : World) where
  commercial-IsStorable : IsStorable filters (Commercial.handle env ctx filters w).0
  unfolding Commercial.handle
  commercial-IsStorable =
      ground (
        arith,
        qualification-IsStorable env ctx filters w,
        process-IsStorable env ctx filters none w,
      )

  choose-IsStorable :
      (index : ℕ) → IsStorable filters (SearchMatch.choose env ctx filters index w).0
  unfolding SearchMatch.choose SearchMatch.answer_question_about_property Commercial.enter
  choose-IsStorable index = grind (arith, process-IsStorable)

  search_match-IsStorable : IsStorable filters (SearchMatch.handle env ctx filters w).0
  unfolding SearchMatch.handle SearchMatch.answer_question_about_property
  search_match-IsStorable =
      grind (arith, qualification-IsStorable env ctx filters w, choose-IsStorable)

  dispatch-IsStorable :
      (s : ConversationState) → IsStorable filters (dispatch s env ctx filters w).0
  unfolding dispatch Scheduling.handle Scheduling.enter_scheduling
  dispatch-IsStorable greeting = greeting-IsStorable env ctx filters w
  dispatch-IsStorable qualification = qualification-IsStorable env ctx filters w
  dispatch-IsStorable search_match = search_match-IsStorable
  dispatch-IsStorable commercial_qualification = commercial-IsStorable
  dispatch-IsStorable scheduling = record { keeps_filters = tt; keeps_answers = tt }
  dispatch-IsStorable human_handoff = record { keeps_filters = tt; keeps_answers = tt }
  dispatch-IsStorable opted_out = record { keeps_filters = tt; keeps_answers = tt }

  pub resolve_result-IsStorable :
      (lead : Lead) → IsStorable filters (resolve_result env lead ctx filters w).0
  unfolding resolve_result
  resolve_result-IsStorable lead = ground (arith, dispatch-IsStorable lead.state)
