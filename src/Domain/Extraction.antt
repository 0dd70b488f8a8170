-- ===== src/Domain/Extraction.antt =====
-- src/llm/extraction.schema.ts: what the language model returns for one turn, after sanitizing.
use inmoagent.Prelude.{ℕ, String, Bool, true, false, Option, List}
use inmoagent.Domain.Property.{OperationType}

pub data Intent : Type 0 where
  provide_info ask_question show_interest change_filters schedule_visit : Intent
  references_seen_listing off_topic other : Intent

abbrev pub is_change_filters : Intent → Bool
is_change_filters change_filters = true
is_change_filters _ = false

abbrev pub is_off_topic : Intent → Bool
is_off_topic off_topic = true
is_off_topic _ = false

abbrev pub is_ask_question : Intent → Bool
is_ask_question ask_question = true
is_ask_question _ = false

abbrev pub is_references_seen_listing : Intent → Bool
is_references_seen_listing references_seen_listing = true
is_references_seen_listing _ = false

pub record ExtractionResult : Type 0 where
  pub intent : Intent
  pub operation : Option OperationType
  pub neighborhoods : List String
  pub max_price : Option ℕ
  pub currency : Option String
  pub min_rooms : Option ℕ
  pub wants_garage : Option Bool
  pub wants_pets_allowed : Option Bool
  pub rooms_inferred : Bool
  pub price_flexible : Bool
  pub extra_requirements : Option String
  pub interested_property_index : Option ℕ
  pub name : Option String
  pub timeline : Option String
  pub guarantee : Option String
  pub payment_method : Option String
  pub has_property_to_sell : Option Bool
  pub visit_availability : Option String
