-- ===== src/Conversation/Engine/States.antt =====
-- The state machine of the dialogue: which state a turn can lead to.
use inmoagent.Prelude.{
  ℕ, String, Option, none, ◌≡◌, sym, subst, arith, ◌⊎◌, inl, inr, Bool-cases, Option-cases,
}
use inmoagent.Domain.Property.{OperationType}
use inmoagent.Domain.Lead.{
  ConversationState, greeting, qualification, search_match, commercial_qualification, scheduling,
  human_handoff, opted_out, Lead,
}
use inmoagent.Conversation.Types.{LeadFilters, HandlerContext}
use inmoagent.Conversation.World.{Env, World}
use inmoagent.Conversation.Handlers.Scheduling
use inmoagent.Conversation.Handlers.Qualification
use inmoagent.Conversation.Handlers.Qualification.Searching.{
  ask_missing_filter, trigger_search, trigger_teaser, no_results_reply, results_reply,
}
use inmoagent.Conversation.Handlers.Commercial
use inmoagent.Conversation.Handlers.SearchMatch
use inmoagent.Conversation.Handlers.Greeting
use inmoagent.Conversation.Engine.{dispatch, is_redirectable, resolve_result}

-- The states that the search for a property moves between.
abbrev pub InSearch : ConversationState → Type 0
InSearch s = (s ≡ qualification) ⊎ (s ≡ search_match)

-- Those of the questions before a visit.
abbrev InVisit : ConversationState → Type 0
InVisit s = (s ≡ commercial_qualification) ⊎ (s ≡ human_handoff)

module _ (env : Env) (ctx : HandlerContext) (filters : LeadFilters) where
  ask_missing_filter-InSearch :
      (prefix : _) → InSearch (ask_missing_filter env ctx filters prefix).next_state
  unfolding ask_missing_filter
  ask_missing_filter-InSearch prefix = ground arith

  trigger_teaser-InSearch :
      (operation : OperationType) (w : World)
      → InSearch (trigger_teaser env ctx operation filters w).0.next_state
  unfolding trigger_teaser ask_missing_filter
  trigger_teaser-InSearch operation w = ground arith

  trigger_search-InSearch :
      (operation : OperationType) (w : World)
      → InSearch (trigger_search env ctx operation filters w).0.next_state
  unfolding trigger_search results_reply no_results_reply
  trigger_search-InSearch operation w = ground arith

  handle_stocked-InSearch :
      (w : World) → InSearch (Qualification.handle_stocked env ctx filters w).0.next_state
  unfolding Qualification.handle_stocked
  handle_stocked-InSearch w =
      let asks = ask_missing_filter-InSearch (Qualification.rooms_prefix ctx filters) in
      elim (Option-cases filters.f_operation) [
        | inl e ↦ ground (arith, e, asks)
        | inr (operation, e) ↦ ground (
          arith,
          e,
          asks,
          trigger_teaser-InSearch operation w,
          trigger_search-InSearch operation w,
        )
      ]

  qualification-InSearch :
      (w : World) → InSearch (Qualification.handle env ctx filters w).0.next_state
  unfolding Qualification.handle Qualification.suggest_alternative_zones
  qualification-InSearch w = ground (arith, handle_stocked-InSearch w)

  greeting_next :
      (w : World)
      → ((Greeting.handle env ctx filters w).0.next_state ≡ greeting)
        ⊎ InSearch (Greeting.handle env ctx filters w).0.next_state
  unfolding Greeting.handle Greeting.handle_unknown Greeting.ask_for_operation
  greeting_next w = ground (arith, qualification-InSearch w)

process-InVisit :
    (env : Env) (ctx : HandlerContext) (filters : LeadFilters) (extra : Option (Option String))
    (w : World)
    → InVisit (Commercial.process env ctx filters extra w).0.next_state
unfolding Commercial.process Scheduling.enter_scheduling
process-InVisit env ctx filters extra w = ground arith

module _ (env : Env) (ctx : HandlerContext) (filters : LeadFilters) (w : World) where
  commercial_next :
      InSearch (Commercial.handle env ctx filters w).0.next_state
      ⊎ InVisit (Commercial.handle env ctx filters w).0.next_state
  unfolding Commercial.handle
  commercial_next =
      ground
        (arith, qualification-InSearch env ctx filters w, process-InVisit env ctx filters none w)

  choose_next :
      (index : ℕ)
      → InSearch (SearchMatch.choose env ctx filters index w).0.next_state
        ⊎ InVisit (SearchMatch.choose env ctx filters index w).0.next_state
  unfolding SearchMatch.choose SearchMatch.answer_question_about_property Commercial.enter
  choose_next index = grind (arith, process-InVisit)

  search_match_next :
      InSearch (SearchMatch.handle env ctx filters w).0.next_state
      ⊎ InVisit (SearchMatch.handle env ctx filters w).0.next_state
  unfolding SearchMatch.handle SearchMatch.answer_question_about_property
  search_match_next = grind (arith, qualification-InSearch env ctx filters w, choose_next)

-- What the handlers do, state by state.
pub data HandlerStep : ConversationState → ConversationState → Type 0 where
  stays : {s : ConversationState} → HandlerStep s s
  greeting_qualifies : HandlerStep greeting qualification
  greeting_searches : HandlerStep greeting search_match
  qualification_searches : HandlerStep qualification search_match
  search_qualifies : HandlerStep search_match qualification
  search_asks : HandlerStep search_match commercial_qualification
  search_hands_over : HandlerStep search_match human_handoff
  commercial_qualifies : HandlerStep commercial_qualification qualification
  commercial_searches : HandlerStep commercial_qualification search_match
  commercial_hands_over : HandlerStep commercial_qualification human_handoff
  scheduling_hands_over : HandlerStep scheduling human_handoff

-- A step whose target is known by an equation.
leads_to : {s t u : ConversationState} → u ≡ t → HandlerStep s t → HandlerStep s u
leads_to {s} e step = subst (HandlerStep s) (sym e) step

module _ (env : Env) (ctx : HandlerContext) (filters : LeadFilters) (w : World) where
  dispatch-HandlerStep :
      (s : ConversationState) → HandlerStep s (dispatch s env ctx filters w).0.next_state
  unfolding dispatch Scheduling.handle Scheduling.enter_scheduling
  dispatch-HandlerStep greeting = elim (greeting_next env ctx filters w) [
    | inl e ↦ leads_to e stays
    | inr (inl e) ↦ leads_to e greeting_qualifies
    | inr (inr e) ↦ leads_to e greeting_searches
  ]
  dispatch-HandlerStep qualification = elim (qualification-InSearch env ctx filters w) [
    | inl e ↦ leads_to e stays
    | inr e ↦ leads_to e qualification_searches
  ]
  dispatch-HandlerStep search_match = elim (search_match_next env ctx filters w) [
    | inl (inl e) ↦ leads_to e search_qualifies
    | inl (inr e) ↦ leads_to e stays
    | inr (inl e) ↦ leads_to e search_asks
    | inr (inr e) ↦ leads_to e search_hands_over
  ]
  dispatch-HandlerStep commercial_qualification = elim (commercial_next env ctx filters w) [
    | inl (inl e) ↦ leads_to e commercial_qualifies
    | inl (inr e) ↦ leads_to e commercial_searches
    | inr (inl e) ↦ leads_to e stays
    | inr (inr e) ↦ leads_to e commercial_hands_over
  ]
  dispatch-HandlerStep scheduling = scheduling_hands_over
  dispatch-HandlerStep human_handoff = stays
  dispatch-HandlerStep opted_out = stays

  pub resolve_result-HandlerStep :
      (lead : Lead) → HandlerStep lead.state (resolve_result env lead ctx filters w).0.next_state
  unfolding resolve_result
  resolve_result-HandlerStep lead = elim (Bool-cases (env.rules.has_buying_signal ctx.turn_text)) [
    | inl signal ↦ rw signal stays
    | inr none_there ↦ elim (Bool-cases (is_redirectable env lead.state ctx filters)) [
      | inl redirected ↦ rw (none_there, redirected) stays
      | inr handled ↦ rw (none_there, handled) (dispatch-HandlerStep lead.state)
    ]
  ]
