-- ===== src/Conversation/Types.antt =====
-- src/conversation/conversation.types.ts, and the texts of conversation/templates.ts as data: a
-- constructor for each template, with the arguments that its builder takes.
use inmoagent.Prelude.{ℕ, String, Bool, Option, List}
use inmoagent.Domain.Property.{OperationType, Property}
use inmoagent.Domain.Lead.{ConversationState, CommercialField, Lead, Tenant}
use inmoagent.Domain.Extraction.{ExtractionResult}
use inmoagent.Properties.Search.{RelaxedCriterion}

pub record LeadFilters : Type 0 where
  pub f_operation : Option OperationType
  pub f_neighborhoods : List String
  pub f_max_price : Option ℕ
  pub f_currency : Option String
  pub f_min_rooms : Option ℕ
  pub f_garage : Option Bool
  pub f_pets_allowed : Option Bool
  pub f_notes : Option String
  pub f_offered_neighborhoods : List String
  pub f_price_mentioned_at_turn : Option ℕ

pub data MissingFilter : Type 0 where
  neighborhood price rooms : MissingFilter

-- `leadSeed`: the lead's id and its turn count
pub record Seed : Type 0 where
  pub lead_id : String
  pub turn_count : ℕ

-- A text that the lead or the tenant receives. `llm_reply` holds the UTF-16 units of a reply that
-- the language model wrote; `joined` is `a + b`; `formal` is what `applyFormality` makes of it.
pub data Text : Type 0 where
  opt_out_confirmation handoff_farewell handoff_timeout_apology : Text
  operation_followup_fallback scheduling_handoff_message : Text
  confirm_currency choose_number option_not_found answer_fallback no_text : Text
  reformulate_request name_request buying_signal_fallback off_topic_redirect_fallback : Seed → Text
  same_results search_intro stock_alert_confirmation day_preference_question : Seed → Text
  greeting_message : Bool → Text
  zone_suggestion : String → List String → Bool → Text
  partial_zone_drop : List String → List String → Text
  delegated_zone zone_still_pending : List String → Text
  rooms_confirmation : ℕ → Text
  missing_filter_fallback : MissingFilter → List String → Seed → Text
  teaser_intro : List String → Seed → Text
  teaser_closing_question : ℕ → Text
  understanding_echo : LeadFilters → Text
  no_results_message : Option RelaxedCriterion → List String → Text
  search_closing_question : ℕ → Seed → Text
  stock_alert_offer : Bool → Seed → Text
  commercial_question : CommercialField → Seed → Text
  schedule_link : String → Text
  llm_reply : List ℕ → Text
  joined : Text → Text → Text
  formal : Text → Text

-- The instruction that a handler gives to the language model.
pub data Instruction : Type 0 where
  about_buying_signal about_off_topic : List ℕ → Instruction
  ask_missing : LeadFilters → MissingFilter → Instruction
  ask_operation : List String → Instruction
  answer_about : List ℕ → Property → Instruction
  without_competitor : Instruction → Instruction

pub record HandlerContext : Type 0 where
  pub tenant : Tenant
  pub lead : Lead
  pub turn_text : List ℕ
  pub extraction : ExtractionResult

pub data OutgoingAction : Type 0 where
  text : Text → OutgoingAction
  property : Property → ℕ → Option LeadFilters → OutgoingAction

-- A field that is `none` is absent (`undefined`); `some none` sets null.
pub record CommercialUpdate : Type 0 where
  pub q_guarantee : Option (Option String)
  pub q_payment_method : Option (Option String)
  pub q_timeline : Option (Option String)
  pub q_has_property_to_sell : Option (Option Bool)
  pub q_asked_fields : Option (List CommercialField)
  pub pending_property_id : Option (Option String)
  pub q_buying_signal_at : Option ℕ
  pub q_wants_stock_alert : Option Bool

pub record HandlerResult : Type 0 where
  pub actions : List OutgoingAction
  pub next_state : ConversationState
  pub filter_updates : Option LeadFilters
  pub preferred_day : Option String
  pub mark_greeted : Bool
  pub mark_name_asked : Bool
  pub commercial_update : Option CommercialUpdate

-- What the regular expressions of filters.util.ts, buying-signals.util.ts and
-- guardrails.service.ts find in the text of a turn, given as UTF-16 units.
pub record TextRules : Type 0 where
  pub asks_opt_out : List ℕ → Bool
  pub asks_handoff : List ℕ → Bool
  pub has_buying_signal : List ℕ → Bool
  pub accepts_zone_suggestion : List ℕ → Bool
  pub delegates_zone_choice : List ℕ → Bool
  pub confirms_property_choice : List ℕ → Bool
  pub extract_day_preference : List ℕ → Option String
  pub has_question_mark : List ℕ → Bool
