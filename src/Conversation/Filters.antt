-- ===== src/Conversation/Filters.antt =====
-- src/conversation/filters.util.ts, without its regular expressions (see `TextRules`).
pub mod Laws
use inmoagent.Prelude.{
  ℕ, ◌+◌, String, Bool, true, false, ◌||◌, Option, none, some, List, [], ◌++◌, ltb, if◌then◌else◌,
  length, is_some, is_none, is_empty, is_nonempty, or_else, dedupe,
}
use inmoagent.Domain.Lead.{Lead}
use inmoagent.Domain.Extraction.{ExtractionResult, is_change_filters}
use inmoagent.Conversation.Types.{LeadFilters, MissingFilter, neighborhood, price, rooms}

unfoldable pub current_filters_from : Lead → LeadFilters
current_filters_from lead = record {
  f_operation = lead.f_operation;
  f_neighborhoods = lead.f_neighborhoods;
  f_max_price = lead.f_max_price;
  f_currency = lead.f_currency;
  f_min_rooms = lead.f_min_rooms;
  f_garage = lead.f_garage;
  f_pets_allowed = lead.f_pets_allowed;
  f_notes = lead.f_notes;
  f_offered_neighborhoods = lead.f_offered_neighborhoods;
  f_price_mentioned_at_turn = lead.f_price_mentioned_at_turn;
}

unfoldable pub merge_neighborhoods : List String → ExtractionResult → List String
merge_neighborhoods current extraction =
    if is_empty extraction.neighborhoods
    then current
    else if is_change_filters extraction.intent
    then extraction.neighborhoods
    else dedupe (current ++ extraction.neighborhoods)

unfoldable pub merge_filters : LeadFilters → ExtractionResult → LeadFilters
unfolding merge_neighborhoods
merge_filters current extraction = record {
  f_operation = or_else extraction.operation current.f_operation;
  f_neighborhoods = merge_neighborhoods current.f_neighborhoods extraction;
  f_max_price = or_else extraction.max_price current.f_max_price;
  f_currency = or_else extraction.currency current.f_currency;
  f_min_rooms = or_else extraction.min_rooms current.f_min_rooms;
  f_garage = or_else extraction.wants_garage current.f_garage;
  f_pets_allowed = or_else extraction.wants_pets_allowed current.f_pets_allowed;
  f_notes = or_else extraction.extra_requirements current.f_notes;
  f_offered_neighborhoods = current.f_offered_neighborhoods;
  f_price_mentioned_at_turn = current.f_price_mentioned_at_turn;
}

-- one for each condition that holds
abbrev pub count_one : Bool → ℕ
count_one b = if b then 1 else 0

unfoldable pub count_filled_core_filters : LeadFilters → ℕ
count_filled_core_filters filters =
    count_one (is_nonempty filters.f_neighborhoods)
    + count_one (is_some filters.f_max_price)
    + count_one (is_some filters.f_min_rooms)

unfoldable pub first_missing_filter : LeadFilters → MissingFilter
first_missing_filter filters =
    if is_empty filters.f_neighborhoods
    then neighborhood
    else if is_none filters.f_min_rooms
    then rooms
    else price

abbrev pub stale_price_turns : ℕ
stale_price_turns = 3

-- `current - mentioned > 3` on integers
unfoldable pub is_price_stale : LeadFilters → ℕ → Bool
is_price_stale filters current_turn_count = elim filters.f_max_price [
  | none ↦ false
  | some _ ↦ elim filters.f_price_mentioned_at_turn [
    | none ↦ false
    | some mentioned ↦ ltb (mentioned + stale_price_turns) current_turn_count
  ]
]

unfoldable pub has_new_filter_data : ExtractionResult → Bool
has_new_filter_data extraction =
    is_some extraction.operation
    || is_nonempty extraction.neighborhoods
    || is_some extraction.max_price
    || is_some extraction.min_rooms
    || is_some extraction.wants_garage
    || is_some extraction.wants_pets_allowed
