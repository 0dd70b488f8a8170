-- ===== src/Tests/Extraction.antt =====
-- Zones, names and rows at concrete inputs.
use inmoagent.Prelude.{
  ℕ, ◌≤◌, ◌<◌, true, false, none, some, List, [], ◌∷◌, ◌≡◌, refl, length, All, ◌⊎◌, inr, is_empty,
  if◌then◌else◌, ltb,
}
use mathlib.Core.List.{reverse}
use inmoagent.Regex.{codes}
use inmoagent.Prelude.Int.{pos, negsuc}
use inmoagent.Domain.Extraction.{Intent}
use inmoagent.Properties.Levenshtein.{
  first_row, next_cells, last_row, levenshtein, distance, levenshtein-distance,
}
use inmoagent.Llm.Sanitize.{
  TextKit, RawExtraction, sanitize_extraction, timeline_values, guarantee_values,
  payment_method_values,
}
use inmoagent.Llm.Sanitize.Clean.{OfSome, IsOneOf, IsMentioned, IsName, sanitize_extraction_clean}
use inmoagent.Admin.Import.{Units, Reading, PropertyInput, Progress}

levenshtein-distance_example :
    levenshtein (codes "caballto") (codes "caballito")
    ≡ distance (reverse (codes "caballto")) (reverse (codes "caballito"))
levenshtein-distance_example = levenshtein-distance (codes "caballto") (codes "caballito")

one_typo : levenshtein (codes "caballto") (codes "caballito") ≡ 1
unfolding levenshtein first_row last_row next_cells
one_typo = refl

abbrev kit : TextKit
kit = record {
  normalize_text = λ s. s;
  to_lower_case = λ s. s;
  to_upper_unit = λ c. c ∷ [];
  of_units = λ s. if is_empty s then "" else "text";
}

abbrev raw_answer : RawExtraction
raw_answer = record {
  intent = Intent.provide_info;
  operation = none;
  neighborhoods = codes "palermo" ∷ codes "tigre" ∷ [];
  max_price = some (negsuc 4);
  currency = none;
  min_rooms = some (pos 3);
  wants_garage = none;
  wants_pets_allowed = none;
  rooms_inferred = false;
  price_flexible = false;
  extra_requirements = none;
  interested_property_index = none;
  name = some (codes "ana");
  timeline = some (codes "inmediato");
  guarantee = some (codes "garante");
  payment_method = none;
  has_property_to_sell = none;
  visit_availability = none;
}

abbrev ana_says : List ℕ
ana_says = codes "soy ana, busco en palermo"

sanitize_extraction_clean_example :
    let e = sanitize_extraction kit raw_answer ana_says in
    OfSome (λ (p : ℕ). 0 < p) e.max_price
    × OfSome (λ (n : ℕ). (1 ≤ n) × (n ≤ 10)) e.min_rooms
    × OfSome (IsOneOf kit timeline_values) e.timeline
    × OfSome (IsOneOf kit guarantee_values) e.guarantee
    × OfSome (IsOneOf kit payment_method_values) e.payment_method
    × All (IsMentioned kit raw_answer.neighborhoods ana_says) e.neighborhoods
    × OfSome (IsName kit raw_answer.name ana_says) e.name
sanitize_extraction_clean_example = sanitize_extraction_clean kit raw_answer ana_says

abbrev reading : Reading ℕ
reading = record {
  value = λ s. length s;
  is_nan = λ s. is_empty s;
  is_positive = λ s. ltb 0 (length s);
  is_integer = λ s. true;
  to_lower_case = λ s. s;
}

abbrev keep_all : PropertyInput ℕ → List (PropertyInput ℕ) → Units ⊎ List (PropertyInput ℕ)
keep_all input db = inr (input ∷ db)

abbrev nothing_done : Progress reading keep_all
nothing_done = record { db = []; imported = 0; errors = [] }

abbrev two_rows : List (List Units)
two_rows = (codes "r1" ∷ []) ∷ ([] ∷ []) ∷ []
