-- ===== src/Llm/Sanitize.antt =====
-- src/llm/extraction.schema.ts: the model's answer is checked against the text of the turn. Its
-- numbers are integers here.
pub mod Clean
use inmoagent.Prelude.{
  ℕ, String, Bool, true, false, not, ◌&&◌, ◌||◌, Option, none, some, List, [], ◌∷◌, ltb, leb,
  if◌then◌else◌, length, map, filter, is_empty, is_nonempty, trim, dedupe, ◌++◌, ◌==◌,
}
use inmoagent.Prelude.Int.{ℤ, pos, negsuc}
use inmoagent.Domain.Property.{OperationType}
use inmoagent.Domain.Extraction.{Intent, ExtractionResult}
use inmoagent.Properties.Neighborhoods.{
  includes_text, split_at_units, normalize_neighborhood, is_known_neighborhood,
  text_mentions_neighborhood,
}

-- The library's part: removing accents, small and capital letters, and a text of units as a text.
pub record TextKit : Type 0 where
  pub normalize_text : List ℕ → List ℕ
  pub to_lower_case : List ℕ → List ℕ
  pub to_upper_unit : ℕ → List ℕ
  pub of_units : List ℕ → String

pub record RawExtraction : Type 0 where
  pub intent : Intent
  pub operation : Option OperationType
  pub neighborhoods : List (List ℕ)
  pub max_price : Option ℤ
  pub currency : Option String
  pub min_rooms : Option ℤ
  pub wants_garage : Option Bool
  pub wants_pets_allowed : Option Bool
  pub rooms_inferred : Bool
  pub price_flexible : Bool
  pub extra_requirements : Option (List ℕ)
  pub interested_property_index : Option ℕ
  pub name : Option (List ℕ)
  pub timeline : Option (List ℕ)
  pub guarantee : Option (List ℕ)
  pub payment_method : Option (List ℕ)
  pub has_property_to_sell : Option Bool
  pub visit_availability : Option (List ℕ)

abbrev pub max_rooms : ℕ
max_rooms = 10

abbrev pub name_blacklist : List String
name_blacklist =
    "hola" ∷ "buenas" ∷ "buenos dias" ∷ "buenas tardes" ∷ "buenas noches" ∷ "gracias" ∷ "chau"
    ∷ "listo" ∷ "dale" ∷ "si" ∷ "no" ∷ "ok" ∷ "okay" ∷ "genial" ∷ "joya" ∷ "buenisimo" ∷ "perfecto"
    ∷ "hey" ∷ "che" ∷ []

abbrev pub timeline_values : List String
timeline_values = "inmediato" ∷ "1-3 meses" ∷ "3-6 meses" ∷ "explorando" ∷ []

abbrev pub guarantee_values : List String
guarantee_values = "propietaria" ∷ "caucion" ∷ "recibo" ∷ "no_tiene" ∷ "no_sabe" ∷ []

abbrev pub payment_method_values : List String
payment_method_values = "contado" ∷ "credito" ∷ "mixto" ∷ "no_sabe" ∷ []

unfoldable pub sanitize_price : Option ℤ → Option ℕ
sanitize_price none = none
sanitize_price (some (pos n)) = if ltb 0 n then some n else none
sanitize_price (some (negsuc n)) = none

unfoldable pub sanitize_rooms : Option ℤ → Option ℕ
sanitize_rooms none = none
sanitize_rooms (some (pos n)) = if leb 1 n && leb n max_rooms then some n else none
sanitize_rooms (some (negsuc n)) = none

module _ (kit : TextKit) where
  abbrev pub capitalize : List ℕ → List ℕ
  capitalize [] = []
  capitalize (c ∷ word) = kit.to_upper_unit c ++ word

  -- `join(' ')`
  abbrev pub join_words : List (List ℕ) → List ℕ
  join_words [] = []
  join_words (word ∷ []) = word
  join_words (word ∷ next ∷ words) = word ++ 32 ∷ join_words (next ∷ words)

  unfoldable pub capitalize_each_word : List ℕ → List ℕ
  unfolding split_at_units
  capitalize_each_word text = join_words (map capitalize (split_at_units (λ c. c == 32) text))

  -- Whether a trimmed candidate is taken for a name.
  unfoldable pub is_plausible_name : List ℕ → List ℕ → Bool
  is_plausible_name trimmed turn_text =
      not (ltb (length trimmed) 2 || ltb 40 (length trimmed))
      && not (includes_text name_blacklist (kit.normalize_text trimmed))
      && not (is_known_neighborhood kit.normalize_text trimmed)
      && text_mentions_neighborhood kit.normalize_text turn_text trimmed

  unfoldable pub sanitize_lead_name : Option (List ℕ) → List ℕ → Option String
  unfolding is_plausible_name capitalize_each_word
  sanitize_lead_name none turn_text = none
  sanitize_lead_name (some raw_name) turn_text =
      if is_nonempty raw_name && is_plausible_name (trim raw_name) turn_text
      then some (kit.of_units (capitalize_each_word (trim raw_name)))
      else none

  unfoldable pub sanitize_closed_value : Option (List ℕ) → List String → Option String
  sanitize_closed_value none allowed = none
  sanitize_closed_value (some raw) allowed =
      let normalized = kit.to_lower_case (trim raw) in
      if is_nonempty raw && includes_text allowed normalized
      then some (kit.of_units normalized)
      else none

  -- `raw?.trim() || null`
  unfoldable pub trimmed_or_null : Option (List ℕ) → Option String
  trimmed_or_null none = none
  trimmed_or_null (some raw) = if is_empty (trim raw) then none else some (kit.of_units (trim raw))

  unfoldable pub sanitize_neighborhoods : List (List ℕ) → List ℕ → List String
  sanitize_neighborhoods raw turn_text = dedupe (
      map kit.of_units (
        filter is_nonempty (
          map (normalize_neighborhood kit.normalize_text)
            (filter (text_mentions_neighborhood kit.normalize_text turn_text) raw))))

  unfoldable pub sanitize_extraction : RawExtraction → List ℕ → ExtractionResult
  unfolding sanitize_neighborhoods sanitize_price sanitize_rooms sanitize_lead_name
      sanitize_closed_value trimmed_or_null
  sanitize_extraction raw turn_text = record {
    intent = raw.intent;
    operation = raw.operation;
    neighborhoods = sanitize_neighborhoods raw.neighborhoods turn_text;
    max_price = sanitize_price raw.max_price;
    currency = raw.currency;
    min_rooms = sanitize_rooms raw.min_rooms;
    wants_garage = raw.wants_garage;
    wants_pets_allowed = raw.wants_pets_allowed;
    rooms_inferred = raw.rooms_inferred;
    price_flexible = raw.price_flexible;
    extra_requirements = trimmed_or_null raw.extra_requirements;
    interested_property_index = raw.interested_property_index;
    name = sanitize_lead_name raw.name turn_text;
    timeline = sanitize_closed_value raw.timeline timeline_values;
    guarantee = sanitize_closed_value raw.guarantee guarantee_values;
    payment_method = sanitize_closed_value raw.payment_method payment_method_values;
    has_property_to_sell = raw.has_property_to_sell;
    visit_availability = trimmed_or_null raw.visit_availability;
  }
