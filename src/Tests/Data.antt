-- ===== src/Tests/Data.antt =====
-- A database with one property, a tenant, a lead and an environment.
use inmoagent.Prelude.{
  ℕ, zero, suc, ◌==◌, String, Bool, true, false, ◌&&◌, Option, none, some, List, [], ◌∷◌, ◌≡◌, refl,
  sym, subst, All-take, length-take, arith, inl, inr, Bool-cases, if◌then◌else◌, str_eq, eq_iff,
  take, All, truthy_bool, IsSorted,
}
use inmoagent.Domain.Property.{Property, rent, active, is_active}
use inmoagent.Domain.Lead.{greeting, Lead, Tenant}
use inmoagent.Domain.Extraction.{ExtractionResult, provide_info}
use inmoagent.Properties.Table.{
  Where, Fits, Table, fits_operation, fits_zone, fits_price, fits_currency, fits_rooms, fits_flag,
  price_le,
}
use inmoagent.Properties.Search.{SearchFilters}
use inmoagent.Conversation.Types.{TextRules, HandlerContext}
use inmoagent.Conversation.World.{Env, World}

abbrev pub flat : Property
flat = record {
  id = "p1";
  tenant_id = "t1";
  title = "Departamento";
  operation = rent;
  status = active;
  price = 500000;
  currency = "ARS";
  neighborhood = "Centro";
  rooms = some 2;
  garage = false;
  pets_allowed = some true;
  photos = "u1" ∷ [];
}

abbrev pub flat_fits : Where → Bool
flat_fits w =
    str_eq flat.tenant_id w.tenant_id
    && is_active flat.status
    && fits_operation w.operation flat.operation
    && fits_zone w.neighborhoods flat.neighborhood
    && fits_price w.max_price flat.price
    && fits_currency w.currency flat.currency
    && fits_rooms w.rooms flat.rooms
    && fits_flag w.garage flat.garage
    && fits_flag w.pets_allowed (truthy_bool flat.pets_allowed)

abbrev pub answers : Where → List Property
answers w = if flat_fits w then flat ∷ [] else []

flat_fits_sound : (w : Where) → flat_fits w ≡ true → Fits w flat
flat_fits_sound w h = record {
  of_tenant = ground arith;
  is_listed = ground arith;
  operation_fits = ground arith;
  zone_fits = ground arith;
  price_fits = ground arith;
  currency_fits = ground arith;
  rooms_fit = ground arith;
  garage_fits = ground arith;
  pets_fit = ground arith;
}

pub answers-Fits : (w : Where) → All (Fits w) (answers w)
answers-Fits w = elim (Bool-cases (flat_fits w)) [
  | inl h ↦ rw h (flat_fits_sound w h, tt)
  | inr h ↦ rw h tt
]

pub take_nil : {A : Type 0} → (n : ℕ) (xs : List A) → take (suc n) xs ≡ [] → xs ≡ []
take_nil n [] h = refl
take_nil n (x ∷ xs) h = cc

-- Nothing but the flat is stored.
abbrev pub find_flat : String → Option Property
find_flat i = if str_eq flat.id i then some flat else none

pub find_flat-is_flat : (i : String) (p : Property) → find_flat i ≡ some p → (flat ≡ p) × (p.id ≡ i)
find_flat-is_flat i p h = elim (Bool-cases (str_eq flat.id i)) [
  | inl e ↦ (ground (arith, e), ground (arith, e, eq_iff flat.id i))
  | inr e ↦ cc (rw e at h)
]

Fits-flat_fits : (w : Where) → Fits w flat → flat_fits w ≡ true
Fits-flat_fits w h =
    rw
      (
        h.of_tenant, h.is_listed, h.operation_fits, h.zone_fits, h.price_fits, h.currency_fits,
        h.rooms_fit, h.garage_fits, h.pets_fit,
      )
      refl

pub answers_complete :
    (w : Where) → answers w ≡ [] → (p : Property) → find_flat p.id ≡ some p → ¬ Fits w p
answers_complete w none_fit p stored fits = elim (Bool-cases (flat_fits w)) [
  | inl e ↦ cc (rw e at none_fit)
  | inr e ↦ cc (e, Fits-flat_fits w (subst (Fits w) (sym (find_flat-is_flat p.id p stored).0) fits))
]

pub cheapest-IsSorted : (n : ℕ) (w : Where) → IsSorted price_le (take n (answers w))
cheapest-IsSorted n w = elim (Bool-cases (flat_fits w)) [
  | inl e ↦ rw e (singleton n)
  | inr e ↦ rw e (nothing n)
]
  where
    singleton : (n : ℕ) → IsSorted price_le (take n (flat ∷ []))
    singleton zero = tt
    singleton (suc zero) = tt
    singleton (suc (suc n)) = tt

    nothing : (n : ℕ) → IsSorted price_le (take {A = Property} n [])
    nothing zero = tt
    nothing (suc n) = tt

abbrev pub one_flat : Table
one_flat = record {
  find_many = answers;
  find_first = λ n w. take n (answers w);
  find_cheapest = λ n w. take n (answers w);
  find_unique = find_flat;
  top_zones = λ t o n. take n ("Centro" ∷ []);
  find_many_fit = answers-Fits;
  find_first_fit = λ n w. All-take (Fits w) n (answers w) (answers-Fits w);
  find_cheapest_fit = λ n w. All-take (Fits w) n (answers w) (answers-Fits w);
  find_many_complete = answers_complete;
  find_first_complete = λ n w e. answers_complete w (take_nil n (answers w) e);
  find_cheapest_complete = λ n w e. answers_complete w (take_nil n (answers w) e);
  find_cheapest_length = λ n w. length-take n (answers w);
  find_cheapest_sorted = cheapest-IsSorted;
  find_unique_id = λ i p h. (find_flat-is_flat i p h).1;
}

abbrev pub rent_request : SearchFilters
rent_request = record {
  operation = rent;
  neighborhoods = "Centro" ∷ [];
  max_price = some 480000;
  currency = some "ARS";
  min_rooms = some 3;
  garage = none;
  pets_allowed = some true;
  price_flexible = false;
}

abbrev pub agency : Tenant
agency = record {
  id = "t1";
  alerts_enabled = true;
  alert_phone = some "5491100000000";
  bot_formality = "informal";
}

abbrev pub new_lead : Lead
new_lead = record {
  id = "l1";
  tenant_id = "t1";
  phone = "5491111111111";
  name = none;
  state = greeting;
  f_operation = none;
  f_neighborhoods = [];
  f_max_price = none;
  f_currency = none;
  f_min_rooms = none;
  f_garage = none;
  f_pets_allowed = none;
  f_notes = none;
  f_preferred_day = none;
  f_offered_neighborhoods = [];
  f_price_mentioned_at_turn = none;
  handoff_at = none;
  opted_out_at = none;
  last_message_at = none;
  greeted_at = none;
  last_search_ids = [];
  turn_count = 0;
  name_asked_at = none;
  q_timeline = none;
  q_guarantee = none;
  q_payment_method = none;
  q_has_property_to_sell = none;
  q_motive = none;
  q_visit_availability = none;
  q_asked_fields = [];
  q_score = none;
  q_score_label = none;
  q_buying_signal_at = none;
  q_wants_stock_alert = false;
  pending_property_id = none;
}

abbrev pub empty_extraction : ExtractionResult
empty_extraction = record {
  intent = provide_info;
  operation = none;
  neighborhoods = [];
  max_price = none;
  currency = none;
  min_rooms = none;
  wants_garage = none;
  wants_pets_allowed = none;
  rooms_inferred = false;
  price_flexible = false;
  extra_requirements = none;
  interested_property_index = none;
  name = none;
  timeline = none;
  guarantee = none;
  payment_method = none;
  has_property_to_sell = none;
  visit_availability = none;
}

-- "Alquilo en Centro, dos ambientes, hasta 500000", as the model reads it
abbrev pub rent_extraction : ExtractionResult
rent_extraction = record empty_extraction {
  operation = some rent;
  neighborhoods = "Centro" ∷ [];
  max_price = some 500000;
  currency = some "ARS";
  min_rooms = some 2;
  name = some "Ana";
}

-- "baja" opts out, "asesor" asks for a person, each as the text's first unit
abbrev pub starts_with : ℕ → List ℕ → Bool
starts_with c [] = false
starts_with c (x ∷ s) = x == c

abbrev pub simple_rules : TextRules
simple_rules = record {
  asks_opt_out = starts_with b'b';
  asks_handoff = starts_with b'a';
  has_buying_signal = starts_with b'r';
  accepts_zone_suggestion = starts_with b's';
  delegates_zone_choice = starts_with b'd';
  confirms_property_choice = starts_with b'e';
  extract_day_preference = λ s. none;
  has_question_mark = starts_with b'?';
}

abbrev pub simple_env : Env
simple_env = record {
  table = one_flat;
  usd_ars_rate = 1000;
  rules = simple_rules;
  now = 1000000;
  extract_intent = λ lead s. some rent_extraction;
  compose_reply = λ i. b'o' ∷ b'k' ∷ [];
  has_sensitive_data = λ s. false;
  has_forbidden_mention = λ s. false;
  new_id = "a1";
}

abbrev pub world_of : Lead → World
world_of lead = record {
  lead = lead;
  appointments = [];
  sent = [];
  alerts = [];
  pushes = [];
  views = [];
}

abbrev pub context_of : Lead → ExtractionResult → List ℕ → HandlerContext
context_of lead extraction s = record {
  tenant = agency;
  lead = lead;
  turn_text = s;
  extraction = extraction;
}
