-- ===== src/Domain/Lead.antt =====
-- prisma/schema.prisma: `Lead`, `Tenant` and `Appointment`, as the conversation engine sees them.
use inmoagent.Prelude.{ℕ, String, Bool, true, false, Option, List}
use inmoagent.Domain.Property.{OperationType}

pub data ConversationState : Type 0 where
  greeting qualification search_match commercial_qualification : ConversationState
  scheduling human_handoff opted_out : ConversationState

abbrev pub is_greeting : ConversationState → Bool
is_greeting greeting = true
is_greeting _ = false

abbrev pub is_search_match : ConversationState → Bool
is_search_match search_match = true
is_search_match _ = false

abbrev pub is_human_handoff : ConversationState → Bool
is_human_handoff human_handoff = true
is_human_handoff _ = false

abbrev pub is_opted_out : ConversationState → Bool
is_opted_out opted_out = true
is_opted_out _ = false

-- `CommercialField` of conversation/templates.ts; `qAskedFields` holds these names.
pub data CommercialField : Type 0 where
  guarantee timeline payment_method has_property_to_sell : CommercialField

abbrev pub field_eq : CommercialField → CommercialField → Bool
field_eq guarantee guarantee = true
field_eq timeline timeline = true
field_eq payment_method payment_method = true
field_eq has_property_to_sell has_property_to_sell = true
field_eq _ _ = false

pub record Lead : Type 0 where
  pub id : String
  pub tenant_id : String
  pub phone : String
  pub name : Option String
  pub state : ConversationState
  pub f_operation : Option OperationType
  pub f_neighborhoods : List String
  pub f_max_price : Option ℕ
  pub f_currency : Option String
  pub f_min_rooms : Option ℕ
  pub f_garage : Option Bool
  pub f_pets_allowed : Option Bool
  pub f_notes : Option String
  pub f_preferred_day : Option String
  pub f_offered_neighborhoods : List String
  pub f_price_mentioned_at_turn : Option ℕ
  pub handoff_at : Option ℕ
  pub opted_out_at : Option ℕ
  pub last_message_at : Option ℕ
  pub greeted_at : Option ℕ
  pub last_search_ids : List String
  pub turn_count : ℕ
  pub name_asked_at : Option ℕ
  pub q_timeline : Option String
  pub q_guarantee : Option String
  pub q_payment_method : Option String
  pub q_has_property_to_sell : Option Bool
  pub q_motive : Option String
  pub q_visit_availability : Option String
  pub q_asked_fields : List CommercialField
  pub q_score : Option ℕ
  pub q_score_label : Option String
  pub q_buying_signal_at : Option ℕ
  pub q_wants_stock_alert : Bool
  pub pending_property_id : Option String

pub record Tenant : Type 0 where
  pub id : String
  pub alerts_enabled : Bool
  pub alert_phone : Option String
  pub bot_formality : String

pub data AppointmentStatus : Type 0 where
  proposed confirmed done cancelled no_show : AppointmentStatus

pub record Appointment : Type 0 where
  pub id : String
  pub tenant_id : String
  pub lead_id : String
  pub property_id : Option String
  pub status : AppointmentStatus
  pub scheduled_at : Option ℕ
  pub assigned_user_id : Option String
  pub outcome : Option String
  pub notes : Option String
