-- ===== src/Conversation/Engine/Recorded.antt =====
-- A handler records what it shows: the whitelist drops no property of a handler.
use inmoagent.Prelude.{ℕ, String, Option, none, refl, arith}
use inmoagent.Domain.Lead.{
  ConversationState, greeting, qualification, search_match, commercial_qualification, scheduling,
  human_handoff, opted_out, Lead,
}
use inmoagent.Conversation.Types.{LeadFilters, HandlerContext}
use inmoagent.Conversation.World.{Env, World}
use inmoagent.Conversation.Handlers.Scheduling
use inmoagent.Conversation.Handlers.Scheduling.{lead_seed}
use inmoagent.Conversation.Handlers.Qualification
use inmoagent.Conversation.Handlers.Commercial
use inmoagent.Conversation.Handlers.SearchMatch
use inmoagent.Conversation.Handlers.Greeting
use inmoagent.Conversation.Engine.{dispatch, resolve_result}
use inmoagent.Conversation.Handlers.Qualification.Recording.{Records, qualification-Records}

process-Records :
    (env : Env) (ctx : HandlerContext) (filters : LeadFilters) (extra : Option (Option String))
    (w : World)
    → Records (Commercial.process env ctx filters extra w)
unfolding Commercial.process Scheduling.enter_scheduling
process-Records env ctx filters extra w = ground arith

module _ (env : Env) (ctx : HandlerContext) (filters : LeadFilters) (w : World) where
  greeting-Records : Records (Greeting.handle env ctx filters w)
  unfolding Greeting.handle Greeting.handle_unknown Greeting.ask_for_operation
      Greeting.with_greeting Qualification.suggest_alternative_zones
  greeting-Records = ground (arith, qualification-Records env ctx filters w)

  commercial-Records : Records (Commercial.handle env ctx filters w)
  unfolding Commercial.handle
  commercial-Records =
      ground
        (arith, qualification-Records env ctx filters w, process-Records env ctx filters none w)

  choose-Records : (index : ℕ) → Records (SearchMatch.choose env ctx filters index w)
  unfolding SearchMatch.choose SearchMatch.answer_question_about_property Commercial.enter
  choose-Records index = grind (arith, process-Records)

  search_match-Records : Records (SearchMatch.handle env ctx filters w)
  unfolding SearchMatch.handle SearchMatch.answer_question_about_property
  search_match-Records = grind (arith, qualification-Records env ctx filters w, choose-Records)

  dispatch-Records : (s : ConversationState) → Records (dispatch s env ctx filters w)
  unfolding dispatch Scheduling.handle Scheduling.enter_scheduling
  dispatch-Records greeting = greeting-Records
  dispatch-Records qualification = qualification-Records env ctx filters w
  dispatch-Records search_match = search_match-Records
  dispatch-Records commercial_qualification = commercial-Records
  dispatch-Records scheduling = ground arith
  dispatch-Records human_handoff = refl
  dispatch-Records opted_out = refl

  -- Whatever the lead's state and text, every property that the result of a turn shows is one of
  -- the ids that the turn recorded as its search: the whitelist drops none of them.
  pub resolve_result-Records : (lead : Lead) → Records (resolve_result env lead ctx filters w)
  unfolding resolve_result
  resolve_result-Records lead = ground (arith, dispatch-Records lead.state)
