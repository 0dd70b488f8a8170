-- ===== src/Conversation/Engine/Guarding.antt =====
-- The effect of a guardrail on the turn: `resolveGuardrail` of conversation.engine.ts, and the
-- veto of `handleTurn` on an expiry while a visit is open.
use inmoagent.Prelude.{
  ℕ, String, Bool, true, false, ◌&&◌, ◌||◌, none, some, List, [], ◌∷◌, if◌then◌else◌, str_eq,
}
use inmoagent.Domain.Lead.{
  greeting, human_handoff, opted_out, Lead, Appointment, AppointmentStatus, proposed, confirmed,
}
use inmoagent.Conversation.Types.{
  Text, opt_out_confirmation, handoff_farewell, handoff_timeout_apology,
}
use inmoagent.Conversation.World.{World}
use inmoagent.Conversation.Release.{resolve_release_state}
use inmoagent.Conversation.Guardrails.{
  GuardrailAction, opt_out, handoff, silenced, handoff_timeout_release, session_expired, continue,
}

-- `lead_update` is what `leadUpdate` does to a row; the empty one does nothing.
pub record GuardrailOutcome : Type 0 where
  pub stop : Bool
  pub replies : List Text
  pub lead_update : Lead → Lead

abbrev pub is_handoff_action : GuardrailAction → Bool
is_handoff_action handoff = true
is_handoff_action _ = false

abbrev pub is_expired_action : GuardrailAction → Bool
is_expired_action session_expired = true
is_expired_action _ = false

abbrev is_open : AppointmentStatus → Bool
is_open proposed = true
is_open confirmed = true
is_open _ = false

-- `appointment.count(...) > 0`
unfoldable pub has_open_appointment : String → List Appointment → Bool
has_open_appointment lead_id [] = false
has_open_appointment lead_id (a ∷ rest) =
    (str_eq a.lead_id lead_id && is_open a.status) || has_open_appointment lead_id rest

unfoldable pub veto_expiry : Lead → World → GuardrailAction → GuardrailAction
veto_expiry lead w session_expired =
    if has_open_appointment lead.id w.appointments then continue else session_expired
veto_expiry lead w action = action

-- The fields that an expired session clears.
unfoldable pub reset_session : Lead → Lead
reset_session lead = record lead {
  state = greeting;
  f_operation = none;
  f_neighborhoods = [];
  f_max_price = none;
  f_currency = none;
  f_min_rooms = none;
  f_garage = none;
  f_pets_allowed = none;
  f_notes = none;
  f_offered_neighborhoods = [];
  f_price_mentioned_at_turn = none;
  f_preferred_day = none;
  turn_count = 0;
  last_search_ids = [];
  greeted_at = none;
  name_asked_at = none;
  q_timeline = none;
  q_guarantee = none;
  q_payment_method = none;
  q_has_property_to_sell = none;
  q_motive = none;
  q_visit_availability = none;
  q_asked_fields = [];
  q_wants_stock_alert = false;
  q_buying_signal_at = none;
  pending_property_id = none;
}

unfoldable pub resolve_guardrail : ℕ → Lead → GuardrailAction → GuardrailOutcome
resolve_guardrail now lead opt_out = record {
  stop = true;
  replies = opt_out_confirmation ∷ [];
  lead_update = λ l. record l { state = opted_out; opted_out_at = some now };
}
resolve_guardrail now lead handoff = record {
  stop = true;
  replies = handoff_farewell ∷ [];
  lead_update = λ l. record l { state = human_handoff; handoff_at = some now };
}
resolve_guardrail now lead silenced = record { stop = true; replies = []; lead_update = λ l. l }
resolve_guardrail now lead handoff_timeout_release = record {
  stop = false;
  replies = handoff_timeout_apology ∷ [];
  lead_update = λ l. record l { state = resolve_release_state lead; handoff_at = none };
}
resolve_guardrail now lead session_expired = record {
  stop = false;
  replies = [];
  lead_update = reset_session;
}
resolve_guardrail now lead continue = record { stop = false; replies = []; lead_update = λ l. l }
