-- ===== src/Conversation/Handlers/Greeting.antt =====
-- src/conversation/handlers/greeting.handler.ts
pub mod Welcome
use inmoagent.Prelude.{
  Bool, true, false, not, ◌&&◌, Option, none, some, List, [], ◌∷◌, ◌++◌, if◌then◌else◌, is_some,
  is_nonempty,
}
use inmoagent.Domain.Lead.{greeting, qualification}
use inmoagent.Domain.Extraction.{is_references_seen_listing}
use inmoagent.Properties.Search.{has_stock_in_zone}
use inmoagent.Conversation.Types.{
  LeadFilters, HandlerContext, HandlerResult, OutgoingAction, text, greeting_message, name_request,
  operation_followup_fallback, ask_operation,
}
use inmoagent.Conversation.World.{Env, World}
use inmoagent.Conversation.SafeReply.{compose}
use inmoagent.Conversation.Handlers.Scheduling.{lead_seed}
use inmoagent.Conversation.Handlers.Qualification
use inmoagent.Conversation.Handlers.Qualification.{suggest_alternative_zones}
use inmoagent.Conversation.Handlers.Qualification.Searching.{reply, should_ask_name}

unfoldable pub ask_for_operation : Env → HandlerContext → LeadFilters → HandlerResult
ask_for_operation env ctx filters =
    reply
      (text (compose env (ask_operation filters.f_neighborhoods) operation_followup_fallback) ∷ [])
      greeting (some filters)

-- The greeting with the legal notice, unless the lead has had it.
unfoldable pub with_greeting : HandlerContext → List OutgoingAction → List OutgoingAction
with_greeting ctx actions =
    if is_some ctx.lead.greeted_at
    then actions
    else text (greeting_message (is_references_seen_listing ctx.extraction.intent)) ∷ actions

-- `handle` while the operation is not known
unfoldable pub handle_unknown : Env → HandlerContext → LeadFilters → HandlerResult
handle_unknown env ctx filters =
    let suggestion = suggest_alternative_zones env ctx filters in
    if is_nonempty filters.f_neighborhoods
      && not
          (has_stock_in_zone env.table env.usd_ars_rate ctx.tenant.id filters.f_neighborhoods none)
    then record suggestion {
      actions = with_greeting ctx suggestion.actions;
      next_state = greeting;
      mark_greeted = true;
    }
    else if not (is_some ctx.lead.greeted_at)
    then record (reply (with_greeting ctx []) greeting (some filters)) { mark_greeted = true }
    else ask_for_operation env ctx filters

unfoldable pub handle : Env → HandlerContext → LeadFilters → World → HandlerResult × World
handle env ctx filters w =
    let name_question : OutgoingAction = text (name_request (lead_seed ctx)) in
    elim filters.f_operation [
      | none ↦ (handle_unknown env ctx filters, w)
      | some _ ↦
          if should_ask_name ctx
          then (
            record (reply (with_greeting ctx (name_question ∷ [])) qualification (some filters)) {
              mark_greeted = true;
              mark_name_asked = true;
            },
            w,
          )
          else let (result, w') = Qualification.handle env ctx filters w in
            if is_some ctx.lead.greeted_at then (result, w') else (
              record result { actions = with_greeting ctx result.actions; mark_greeted = true },
              w',
            )
    ]
