-- ===== src/Conversation/Engine/Frame.antt =====
-- What a handler leaves alone: it queues no message itself, records no view, and of the lead's row
-- it writes nothing but the ids of the last search.
use inmoagent.Prelude.{
  ℕ, String, Option, none, ◌≡◌, refl, arith, inl, inr, Bool-cases, ◌&&◌, truthy,
}
use inmoagent.Domain.Property.{OperationType, Property}
use inmoagent.Domain.Lead.{
  ConversationState, greeting, qualification, search_match, commercial_qualification, scheduling,
  human_handoff, opted_out, Lead, Tenant,
}
use inmoagent.Conversation.Types.{LeadFilters, HandlerContext}
use inmoagent.Conversation.World.{Env, World, AlertTitle, notify, propose, set_last_search_ids}
use inmoagent.Conversation.Handlers.Scheduling
use inmoagent.Conversation.Handlers.Qualification
use inmoagent.Conversation.Handlers.Qualification.Searching.{trigger_search, trigger_teaser}
use inmoagent.Conversation.Handlers.Commercial
use inmoagent.Conversation.Handlers.SearchMatch
use inmoagent.Conversation.Handlers.Greeting
use inmoagent.Conversation.Engine.{dispatch, resolve_result}

pub record IsFramed (w w' : World) : Type 0 where
  pub same_sent : w'.sent ≡ w.sent
  pub same_views : w'.views ≡ w.views
  pub same_lead : w'.lead ≡ record (w.lead) { last_search_ids = w'.lead.last_search_ids }

IsFramed-refl : (w : World) → IsFramed w w
IsFramed-refl w = record { same_sent = refl; same_views = refl; same_lead = refl }

pub notify-IsFramed :
    (tenant : Tenant) (title : Option AlertTitle) (w : World) → IsFramed w (notify tenant title w)
unfolding notify
notify-IsFramed tenant title w =
    elim (Bool-cases (tenant.alerts_enabled && truthy tenant.alert_phone)) [
      | inl h ↦ rw h (record { same_sent = refl; same_views = refl; same_lead = refl })
      | inr h ↦ rw h (IsFramed-refl w)
    ]

module _ (env : Env) (ctx : HandlerContext) where
  trigger_search-IsFramed :
      (operation : OperationType) (filters : LeadFilters) (w : World)
      → IsFramed w (trigger_search env ctx operation filters w).1
  unfolding trigger_search set_last_search_ids
  trigger_search-IsFramed operation filters w = record {
    same_sent = ground arith;
    same_views = ground arith;
    same_lead = ground arith;
  }

  trigger_teaser-IsFramed :
      (operation : OperationType) (filters : LeadFilters) (w : World)
      → IsFramed w (trigger_teaser env ctx operation filters w).1
  unfolding trigger_teaser set_last_search_ids
  trigger_teaser-IsFramed operation filters w = record {
    same_sent = ground arith;
    same_views = ground arith;
    same_lead = ground arith;
  }

  enter_scheduling-IsFramed :
      (property : Option Property) (w : World)
      → IsFramed w (Scheduling.enter_scheduling env ctx property w).1
  unfolding Scheduling.enter_scheduling notify propose
  enter_scheduling-IsFramed property w = record {
    same_sent = ground arith;
    same_views = ground arith;
    same_lead = ground arith;
  }

  handle_stocked-IsFramed :
      (filters : LeadFilters) (w : World)
      → IsFramed w (Qualification.handle_stocked env ctx filters w).1
  unfolding Qualification.handle_stocked
  handle_stocked-IsFramed filters w =
      grind (arith, IsFramed-refl w, trigger_search-IsFramed, trigger_teaser-IsFramed)

  qualification-IsFramed :
      (filters : LeadFilters) (w : World) → IsFramed w (Qualification.handle env ctx filters w).1
  unfolding Qualification.handle
  qualification-IsFramed filters w =
      ground (arith, IsFramed-refl w, handle_stocked-IsFramed filters w)

  process-IsFramed :
      (filters : LeadFilters) (extra : Option (Option String)) (w : World)
      → IsFramed w (Commercial.process env ctx filters extra w).1
  unfolding Commercial.process
  process-IsFramed filters extra w = grind (arith, IsFramed-refl w, enter_scheduling-IsFramed)

  commercial-IsFramed :
      (filters : LeadFilters) (w : World) → IsFramed w (Commercial.handle env ctx filters w).1
  unfolding Commercial.handle
  commercial-IsFramed filters w =
      ground (arith, qualification-IsFramed filters w, process-IsFramed filters none w)

  greeting-IsFramed :
      (filters : LeadFilters) (w : World) → IsFramed w (Greeting.handle env ctx filters w).1
  unfolding Greeting.handle
  greeting-IsFramed filters w = ground (arith, qualification-IsFramed filters w, IsFramed-refl w)

module _ (env : Env) (ctx : HandlerContext) (filters : LeadFilters) where
  choose-IsFramed :
      (index : ℕ) (w : World) → IsFramed w (SearchMatch.choose env ctx filters index w).1
  unfolding SearchMatch.choose Commercial.enter
  choose-IsFramed index w = grind (arith, IsFramed-refl w, process-IsFramed)

  search_match-IsFramed : (w : World) → IsFramed w (SearchMatch.handle env ctx filters w).1
  unfolding SearchMatch.handle
  search_match-IsFramed w =
      grind (arith, qualification-IsFramed env ctx filters w, IsFramed-refl w, choose-IsFramed)

  pub dispatch-IsFramed :
      (state : ConversationState) (w : World) → IsFramed w (dispatch state env ctx filters w).1
  unfolding dispatch Scheduling.handle
  dispatch-IsFramed greeting w = greeting-IsFramed env ctx filters w
  dispatch-IsFramed qualification w = qualification-IsFramed env ctx filters w
  dispatch-IsFramed search_match w = search_match-IsFramed w
  dispatch-IsFramed commercial_qualification w = commercial-IsFramed env ctx filters w
  dispatch-IsFramed scheduling w = enter_scheduling-IsFramed env ctx none w
  dispatch-IsFramed human_handoff w = IsFramed-refl w
  dispatch-IsFramed opted_out w = IsFramed-refl w

  pub resolve_result-IsFramed :
      (lead : Lead) (w : World) → IsFramed w (resolve_result env lead ctx filters w).1
  unfolding resolve_result
  resolve_result-IsFramed lead w =
      grind
        (arith, IsFramed-refl w, notify-IsFramed ctx.tenant none w, dispatch-IsFramed lead.state w)
