-- ===== src/Conversation/Handlers/Qualification/Gaps.antt =====
-- A lead without an operation.
use inmoagent.Prelude.{none, [], ◌∷◌, ◌≡◌, true, arith, is_some, is_nonempty}
use inmoagent.Domain.Lead.{qualification}
use inmoagent.Conversation.Types.{
  LeadFilters, price, HandlerContext, text, ask_missing, missing_filter_fallback,
}
use inmoagent.Conversation.World.{Env, World}
use inmoagent.Conversation.Filters.{first_missing_filter}
use inmoagent.Conversation.SafeReply.{compose}
use inmoagent.Conversation.Handlers.Scheduling.{lead_seed}
use inmoagent.Conversation.Handlers.Qualification.{handle_stocked, rooms_prefix}
use inmoagent.Conversation.Handlers.Qualification.Searching.{ask_missing_filter, prefixed}

-- In QUALIFICATION, a lead whose operation is not known and whose zone, rooms and budget are known
-- is asked for the budget once more and stays in
-- QUALIFICATION.
pub handle_stocked-no_operation :
    (env : Env) (ctx : HandlerContext) (filters : LeadFilters) (w : World)
    → filters.f_operation ≡ none
    → is_nonempty filters.f_neighborhoods ≡ true
    → is_some filters.f_min_rooms ≡ true
    → is_some filters.f_max_price ≡ true
    → let result = (handle_stocked env ctx filters w).0 in
      let question =
        compose env
          (ask_missing filters price)
          (missing_filter_fallback price filters.f_neighborhoods (lead_seed ctx)) in
      (result.actions ≡ text (prefixed (rooms_prefix ctx filters) question) ∷ [])
      × (result.next_state ≡ qualification)
unfolding handle_stocked ask_missing_filter first_missing_filter
handle_stocked-no_operation env ctx filters w no_op zone rooms budget = ground arith
