-- ===== src/Conversation/Handlers/Qualification/Searching.antt =====
-- `triggerSearch` and `triggerTeaser` of qualification.handler.ts, with what they call.
use inmoagent.Prelude.{
  ℕ, suc, String, Bool, true, false, not, ◌&&◌, Option, none, some, List, [], ◌∷◌, ◌++◌,
  if◌then◌else◌, str_eq, length, is_some, is_none, is_empty, is_nonempty,
}
use inmoagent.Domain.Property.{OperationType, Property}
use inmoagent.Domain.Lead.{ConversationState, qualification, search_match, is_search_match}
use inmoagent.Properties.Search.{
  SearchFilters, SearchOutcome, search_and_record, teaser_search, top_stock_zones,
}
use inmoagent.Conversation.Types.{
  LeadFilters, MissingFilter, neighborhood, HandlerContext, HandlerResult, OutgoingAction, text,
  property, CommercialUpdate, Text, same_results, understanding_echo, no_results_message,
  search_intro, search_closing_question, stock_alert_confirmation, stock_alert_offer, name_request,
  teaser_intro, teaser_closing_question, delegated_zone, zone_still_pending,
  missing_filter_fallback, ask_missing, joined,
}
use inmoagent.Conversation.World.{Env, World, set_last_search_ids}
use inmoagent.Conversation.Filters.{first_missing_filter, is_price_stale, has_new_filter_data}
use inmoagent.Conversation.SafeReply.{compose}
use inmoagent.Conversation.Handlers.Scheduling.{lead_seed}

-- A result with actions, a state and the filters to store, and nothing else.
abbrev pub reply : List OutgoingAction → ConversationState → Option LeadFilters → HandlerResult
reply actions state filters = record {
  actions = actions;
  next_state = state;
  filter_updates = filters;
  preferred_day = none;
  mark_greeted = false;
  mark_name_asked = false;
  commercial_update = none;
}

-- One `property` action for each property, numbered from `i`.
unfoldable pub property_actions : Option LeadFilters → ℕ → List Property → List OutgoingAction
property_actions filters i [] = []
property_actions filters i (p ∷ ps) = property p i filters ∷ property_actions filters (suc i) ps

unfoldable pub should_ask_name : HandlerContext → Bool
should_ask_name ctx = is_none ctx.lead.name && is_none ctx.lead.name_asked_at

-- `prefix + question`, where an empty prefix is `none`
abbrev pub prefixed : Option Text → Text → Text
prefixed none t = t
prefixed (some prefix) t = joined prefix t

abbrev pub is_neighborhood : MissingFilter → Bool
is_neighborhood neighborhood = true
is_neighborhood _ = false

unfoldable pub ask_missing_filter : Env → HandlerContext → LeadFilters → Option Text → HandlerResult
ask_missing_filter env ctx filters prefix =
    let missing = first_missing_filter filters in
    let zones = top_stock_zones env.table env.usd_ars_rate ctx.tenant.id filters.f_operation 2 in
    let question =
      compose env (ask_missing filters missing)
        (missing_filter_fallback missing filters.f_neighborhoods (lead_seed ctx)) in
    if is_neighborhood missing && env.rules.delegates_zone_choice ctx.turn_text && is_nonempty zones
    then reply (text (delegated_zone zones) ∷ []) qualification
        (some (record filters { f_offered_neighborhoods = zones }))
    else if is_neighborhood missing && is_nonempty filters.f_offered_neighborhoods
    then reply (text (zone_still_pending filters.f_offered_neighborhoods) ∷ []) qualification
        (some filters)
    else reply (text (prefixed prefix question) ∷ []) qualification (some filters)

unfoldable pub trigger_teaser :
    Env → HandlerContext → OperationType → LeadFilters → World → HandlerResult × World
trigger_teaser env ctx operation filters w =
    let (outcome, ids) =
      teaser_search env.table env.usd_ars_rate ctx.tenant.id operation filters.f_neighborhoods in
    let w' = set_last_search_ids ids w in
    let ask_name = should_ask_name ctx in
    let closing : List OutgoingAction =
      text (teaser_closing_question (length outcome.properties))
      ∷ (if ask_name then text (name_request (lead_seed ctx)) ∷ [] else []) in
    if is_empty outcome.properties then (ask_missing_filter env ctx filters none, w') else (
      record (reply
          (text (teaser_intro filters.f_neighborhoods (lead_seed ctx))
            ∷ (property_actions (some filters) 1 outcome.properties ++ closing))
          search_match (some filters)) { mark_name_asked = ask_name },
      w',
    )

-- The filters of a search; a stale budget is left out of it.
unfoldable pub search_filters : HandlerContext → OperationType → LeadFilters → SearchFilters
search_filters ctx operation filters =
    let stale = is_price_stale filters ctx.lead.turn_count in
    record {
      operation = operation;
      neighborhoods = filters.f_neighborhoods;
      max_price = if stale then none else filters.f_max_price;
      currency = if stale then none else filters.f_currency;
      min_rooms = filters.f_min_rooms;
      garage = filters.f_garage;
      pets_allowed = filters.f_pets_allowed;
      price_flexible = ctx.extraction.price_flexible;
    }

-- `properties.every((p, i) => p.id === previous[i])` and the lengths agree
unfoldable pub same_ids : List Property → List String → Bool
same_ids [] [] = true
same_ids [] (_ ∷ _) = false
same_ids (_ ∷ _) [] = false
same_ids (p ∷ ps) (i ∷ is) = str_eq p.id i && same_ids ps is

unfoldable pub accepts_stock_alert : Env → HandlerContext → Bool
accepts_stock_alert env ctx =
    not ctx.lead.q_wants_stock_alert
    && not (has_new_filter_data ctx.extraction)
    && env.rules.accepts_zone_suggestion ctx.turn_text

abbrev stock_alert_update : CommercialUpdate
stock_alert_update = record {
  q_guarantee = none;
  q_payment_method = none;
  q_timeline = none;
  q_has_property_to_sell = none;
  q_asked_fields = none;
  pending_property_id = none;
  q_buying_signal_at = none;
  q_wants_stock_alert = some true;
}

-- The reply to a search that found nothing.
unfoldable pub no_results_reply : Env → HandlerContext → LeadFilters → SearchOutcome → HandlerResult
no_results_reply env ctx filters outcome =
    let apology : HandlerResult =
      reply (text (no_results_message outcome.relaxed filters.f_neighborhoods) ∷ []) search_match
        (some filters) in
    let offer_name = should_ask_name ctx in
    if is_none outcome.relaxed && accepts_stock_alert env ctx
    then record (reply (text (stock_alert_confirmation (lead_seed ctx)) ∷ []) search_match
        (some filters)) { commercial_update = some stock_alert_update }
    else if is_none outcome.relaxed && not ctx.lead.q_wants_stock_alert
    then record (reply (text (stock_alert_offer offer_name (lead_seed ctx)) ∷ []) search_match
        (some filters)) { mark_name_asked = offer_name }
    else apology

-- The reply to a search that found something.
unfoldable pub results_reply : HandlerContext → LeadFilters → SearchOutcome → HandlerResult
results_reply ctx filters outcome =
    let echo : List OutgoingAction =
      if is_search_match ctx.lead.state then [] else text (understanding_echo filters) ∷ [] in
    let intro =
      if is_some outcome.relaxed
      then no_results_message outcome.relaxed filters.f_neighborhoods
      else search_intro (lead_seed ctx) in
    let ask_name = should_ask_name ctx in
    let closing : List OutgoingAction =
      text (search_closing_question (length outcome.properties) (lead_seed ctx))
      ∷ (if ask_name then text (name_request (lead_seed ctx)) ∷ [] else []) in
    record (reply
      (echo ++ (text intro ∷ (property_actions (some filters) 1 outcome.properties ++ closing)))
      search_match (some filters)) { mark_name_asked = ask_name }

unfoldable pub trigger_search :
    Env → HandlerContext → OperationType → LeadFilters → World → HandlerResult × World
trigger_search env ctx operation filters w =
    let (outcome, ids) =
      search_and_record env.table env.usd_ars_rate ctx.tenant.id
        (search_filters ctx operation filters) w.lead.last_search_ids in
    let w' = set_last_search_ids ids w in
    let found = is_nonempty outcome.properties in
    let same_as_before =
      is_search_match ctx.lead.state
      && is_none outcome.relaxed
      && found
      && same_ids outcome.properties ctx.lead.last_search_ids in
    if same_as_before
    then (reply (text (same_results (lead_seed ctx)) ∷ []) search_match (some filters), w')
    else if found
    then (results_reply ctx filters outcome, w')
    else (no_results_reply env ctx filters outcome, w')
