-- ===== src/Conversation/Engine/Persist.antt =====
-- `persistLeadUpdate` of conversation.engine.ts.
use inmoagent.Prelude.{
  ℕ, String, not, ◌&&◌, Option, none, some, if◌then◌else◌, is_none, or_else, or_value, truthy,
}
use inmoagent.Domain.Lead.{is_human_handoff, Lead}
use inmoagent.Conversation.Types.{LeadFilters, HandlerResult, CommercialUpdate}
use inmoagent.Conversation.Score.{LeadScoreLabel, frio, tibio, caliente, calculate_lead_score}

abbrev pub label_text : LeadScoreLabel → String
label_text frio = "frio"
label_text tibio = "tibio"
label_text caliente = "caliente"

-- The row with `filterUpdates` written to it.
unfoldable pub write_filters : Option LeadFilters → Lead → Lead
write_filters none row = row
write_filters (some f) row = record row {
  f_operation = f.f_operation;
  f_neighborhoods = f.f_neighborhoods;
  f_max_price = f.f_max_price;
  f_currency = f.f_currency;
  f_min_rooms = f.f_min_rooms;
  f_garage = f.f_garage;
  f_pets_allowed = f.f_pets_allowed;
  f_notes = f.f_notes;
  f_offered_neighborhoods = f.f_offered_neighborhoods;
  f_price_mentioned_at_turn = f.f_price_mentioned_at_turn;
}

-- The row with `commercialUpdate` written to it; an absent field stays.
unfoldable pub write_commercial : Option CommercialUpdate → Lead → Lead
write_commercial none row = row
write_commercial (some u) row = record row {
  q_guarantee = or_value u.q_guarantee row.q_guarantee;
  q_payment_method = or_value u.q_payment_method row.q_payment_method;
  q_timeline = or_value u.q_timeline row.q_timeline;
  q_has_property_to_sell = or_value u.q_has_property_to_sell row.q_has_property_to_sell;
  q_asked_fields = or_value u.q_asked_fields row.q_asked_fields;
  pending_property_id = or_value u.pending_property_id row.pending_property_id;
  q_buying_signal_at = or_else u.q_buying_signal_at row.q_buying_signal_at;
  q_wants_stock_alert = or_value u.q_wants_stock_alert row.q_wants_stock_alert;
}

-- The state, the turn, the name and the marks.
unfoldable pub write_turn : ℕ → Lead → HandlerResult → ℕ → Option String → Lead → Lead
write_turn now lead result turn_count name row = record row {
  state = result.next_state;
  last_message_at = some now;
  turn_count = turn_count;
  name = if truthy name && not (truthy lead.name) then name else row.name;
  f_preferred_day =
      if truthy result.preferred_day then result.preferred_day else row.f_preferred_day;
  greeted_at = if result.mark_greeted && is_none lead.greeted_at then some now else row.greeted_at;
  name_asked_at =
      if result.mark_name_asked && is_none lead.name_asked_at then some now else row.name_asked_at;
  handoff_at =
      if is_human_handoff result.next_state && not (is_human_handoff lead.state)
      then some now
      else row.handoff_at;
}

abbrev new_filter {ℓ} : {A : Type ℓ} → (LeadFilters → Option A) → HandlerResult → Option A
new_filter field result = elim result.filter_updates [ none ↦ none | some f ↦ field f ]

abbrev new_commercial {ℓ} : {A : Type ℓ} → (CommercialUpdate → Option A) → HandlerResult → Option A
new_commercial field result = elim result.commercial_update [ none ↦ none | some u ↦ field u ]

abbrev joined_option {ℓ} : {A : Type ℓ} → Option (Option A) → Option A
joined_option none = none
joined_option (some o) = o

-- The lead that the score is computed of: `data.x ?? lead.x` in each field that it reads.
unfoldable pub scored_lead : Lead → HandlerResult → Option String → Lead
scored_lead lead result name = record lead {
  name = or_else (if truthy name && not (truthy lead.name) then name else none) lead.name;
  f_operation = or_else (new_filter (λ f. f.f_operation) result) lead.f_operation;
  f_max_price = or_else (new_filter (λ f. f.f_max_price) result) lead.f_max_price;
  q_asked_fields = or_value (new_commercial (λ u. u.q_asked_fields) result) lead.q_asked_fields;
  q_timeline = or_else (joined_option (new_commercial (λ u. u.q_timeline) result)) lead.q_timeline;
  q_guarantee =
      or_else (joined_option (new_commercial (λ u. u.q_guarantee) result)) lead.q_guarantee;
  q_payment_method =
      or_else (joined_option (new_commercial (λ u. u.q_payment_method) result))
        lead.q_payment_method;
  q_buying_signal_at =
      or_else (new_commercial (λ u. u.q_buying_signal_at) result) lead.q_buying_signal_at;
}

-- `lead` is the row that the turn read last, `row` the one that is written.
unfoldable pub persist_lead_update : ℕ → Lead → HandlerResult → ℕ → Option String → Lead → Lead
persist_lead_update now lead result turn_count name row =
    let score = calculate_lead_score (scored_lead lead result name) in
    record (write_commercial result.commercial_update
      (write_filters result.filter_updates (write_turn now lead result turn_count name row))) {
        q_score = some score.score;
        q_score_label = some (label_text score.label);
      }
