-- ===== src/Conversation/Handlers/Qualification.antt =====
-- src/conversation/handlers/qualification.handler.ts. Its searches are in the child `Searching`.
pub mod Recording
pub mod Gaps
pub mod Searching
use inmoagent.Prelude.{
  ℕ, ◌+◌, ◌*◌, String, Bool, true, false, not, ◌&&◌, Option, none, some, List, [], ◌∷◌, ltb, leb,
  ◌==◌, if◌then◌else◌, str_eq, length, filter, take, is_some, is_none, is_empty, is_nonempty,
  includes, or_value, get_elem?,
}
use inmoagent.Domain.Property.{OperationType, sale}
use inmoagent.Domain.Lead.{qualification, is_search_match}
use inmoagent.Properties.Search.{zones_with_stock, top_stock_zones}
use inmoagent.Properties.Zones.{get_adjacent_zones}
use inmoagent.Conversation.Types.{
  LeadFilters, HandlerContext, HandlerResult, OutgoingAction, text, property, Text, zone_suggestion,
  partial_zone_drop, confirm_currency, rooms_confirmation, joined,
}
use inmoagent.Conversation.World.{Env, World}
use inmoagent.Conversation.Filters.{count_filled_core_filters}
use Searching.{reply, ask_missing_filter, trigger_teaser, trigger_search}

-- A price is in hundredths: 20000 USD, 5000000 ARS.
unfoldable pub is_suspicious_sale_price : Option ℕ → Option String → Bool
is_suspicious_sale_price none currency = false
is_suspicious_sale_price (some price) none = false
is_suspicious_sale_price (some price) (some currency) =
    if str_eq currency "USD"
    then ltb price (20000 * 100)
    else if str_eq currency "ARS"
    then ltb price (5000000 * 100)
    else false

-- Called where there is a zone; the source reads `fNeighborhoods[0]`.
unfoldable pub suggest_alternative_zones : Env → HandlerContext → LeadFilters → HandlerResult
suggest_alternative_zones env ctx filters =
    let requested = or_value (get_elem? filters.f_neighborhoods 0) "" in
    let adjacent =
      zones_with_stock env.table env.usd_ars_rate ctx.tenant.id (get_adjacent_zones requested)
        filters.f_operation in
    let using_fallback = is_empty adjacent in
    let suggestions =
      if using_fallback
      then top_stock_zones env.table env.usd_ars_rate ctx.tenant.id filters.f_operation 2
      else take 2 adjacent in
    reply (text (zone_suggestion requested suggestions using_fallback) ∷ []) qualification
      (some (record filters { f_neighborhoods = []; f_offered_neighborhoods = suggestions }))

-- `result.actions[0].text = prefix + ...`, where the first action is a text
unfoldable pub prefix_first : Option Text → List OutgoingAction → List OutgoingAction
prefix_first (some prefix) (text t ∷ rest) = text (joined prefix t) ∷ rest
prefix_first _ actions = actions

unfoldable pub rooms_prefix : HandlerContext → LeadFilters → Option Text
rooms_prefix ctx filters = elim filters.f_min_rooms [
  | none ↦ none
  | some n ↦ if ctx.extraction.rooms_inferred then some (rooms_confirmation n) else none
]

abbrev is_sale : Option OperationType → Bool
is_sale (some sale) = true
is_sale _ = false

-- `handle` behind the checks on the zones
unfoldable pub handle_stocked : Env → HandlerContext → LeadFilters → World → HandlerResult × World
handle_stocked env ctx filters w =
    let prefix = rooms_prefix ctx filters in
    let ask : HandlerResult × World = (ask_missing_filter env ctx filters prefix, w) in
    if is_some ctx.extraction.max_price
      && is_sale filters.f_operation
      && is_suspicious_sale_price filters.f_max_price filters.f_currency
    then (reply (text confirm_currency ∷ []) qualification (some filters), w)
    else elim filters.f_operation [
      | none ↦ ask
      | some operation ↦
          if leb 2 (count_filled_core_filters filters)
          then (let (result, w') = trigger_search env ctx operation filters w in
              (record result { actions = prefix_first prefix result.actions }, w'))
          else if not (is_search_match ctx.lead.state) && is_nonempty filters.f_neighborhoods
          then trigger_teaser env ctx operation filters w
          else ask
    ]

unfoldable pub handle : Env → HandlerContext → LeadFilters → World → HandlerResult × World
handle env ctx filters w =
    let stocked =
      zones_with_stock env.table env.usd_ars_rate ctx.tenant.id filters.f_neighborhoods
        filters.f_operation in
    let empty_zones = filter (λ zone. not (includes stocked zone)) filters.f_neighborhoods in
    if is_nonempty filters.f_neighborhoods && length empty_zones == length filters.f_neighborhoods
    then (suggest_alternative_zones env ctx filters, w)
    else if is_nonempty filters.f_neighborhoods && is_nonempty empty_zones
    then (
      reply (text (partial_zone_drop empty_zones stocked) ∷ []) qualification
          (some (record filters { f_neighborhoods = stocked })),
      w,
    )
    else handle_stocked env ctx filters w
