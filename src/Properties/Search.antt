-- ===== src/Properties/Search.antt =====
-- src/properties/property-search.service.ts. A factor on the price is a percentage; the database is
-- the `Table`, and USD_ARS_RATE of the configuration is `rate`.
pub mod Teaser
pub mod Order
pub mod Laws
pub mod Query
pub mod Attempts
use inmoagent.Prelude.{
  ℕ, ◌+◌, ◌-◌, ◌*◌, ◌/◌, String, Bool, true, false, not, ◌&&◌, Option, none, some, List, [], ◌∷◌,
  map, leb, ltb, ◌==◌, if◌then◌else◌, str_eq, includes, length, get_elem?, take, filter, is_some,
  is_empty, is_nonempty, or_value, truthy, truthy_nat, truthy_bool, sort_by,
}
use inmoagent.Domain.Property.{OperationType, Property}
use inmoagent.Properties.Table.{Table, Where, RoomsTest, any_rooms, equals_rooms, at_least_rooms}

pub record SearchFilters : Type 0 where
  pub operation : OperationType
  pub neighborhoods : List String
  pub max_price : Option ℕ
  pub currency : Option String
  pub min_rooms : Option ℕ
  pub garage : Option Bool
  pub pets_allowed : Option Bool
  pub price_flexible : Bool

-- `null`, that nothing was relaxed, is `none`.
pub data RelaxedCriterion : Type 0 where
  rooms price over_budget empty_zone : RelaxedCriterion

pub record SearchOutcome : Type 0 where
  pub properties : List Property
  pub relaxed : Option RelaxedCriterion

abbrev pub result_limit : ℕ
result_limit = 3

abbrev pub price_tolerance : ℕ
price_tolerance = 110

abbrev pub price_relax_cap : ℕ
price_relax_cap = 125

abbrev pub price_relax_cap_flexible : ℕ
price_relax_cap_flexible = 150

abbrev pub candidate_limit : ℕ
candidate_limit = 100

pub record RelaxOptions : Type 0 where
  pub price_factor : Option ℕ
  pub include_rooms : Bool
  pub label : Option RelaxedCriterion

abbrev pub strict : RelaxOptions
strict = record { price_factor = some price_tolerance; include_rooms = true; label = none }

abbrev pub raise_price : RelaxOptions
raise_price = record {
  price_factor = some price_relax_cap;
  include_rooms = true;
  label = some price;
}

abbrev pub raise_price_flexible : RelaxOptions
raise_price_flexible = record {
  price_factor = some price_relax_cap_flexible;
  include_rooms = true;
  label = some price;
}

abbrev pub drop_rooms : Bool → RelaxOptions
drop_rooms priced = record {
  price_factor = if priced then some price_relax_cap else none;
  include_rooms = false;
  label = some rooms;
}

abbrev pub drop_price : Bool → RelaxOptions
drop_price include_rooms = record {
  price_factor = none;
  include_rooms = include_rooms;
  label = some over_budget;
}

-- `if (b) attempts.push(a)`, with the attempts pushed later behind it
unfoldable pub push_if {ℓ} : {A : Type ℓ} → Bool → A → List A → List A
push_if b a later = if b then a ∷ later else later

-- The attempts that `search` makes, in their order.
unfoldable pub attempts : SearchFilters → List RelaxOptions
attempts f =
    let priced = truthy_nat f.max_price in
    let roomed = truthy_nat f.min_rooms in
    strict
    ∷ push_if priced raise_price (
        push_if (priced && f.price_flexible) raise_price_flexible (
          push_if roomed (drop_rooms priced)
            (push_if priced (drop_price true) (push_if (priced && roomed) (drop_price false) []))))

-- `filters.maxPrice * opts.priceFactor`, in hundredths
abbrev pub scaled : Option ℕ → Option ℕ → Option ℕ
scaled none k = none
scaled (some p) none = none
scaled (some p) (some k) = some (p * k)

-- "Monoambiente" is asked for exactly, any other number of rooms as a floor.
abbrev pub rooms_test : Option ℕ → RoomsTest
rooms_test none = any_rooms
rooms_test (some n) = if n == 1 then equals_rooms 1 else at_least_rooms n

abbrev pub kept {ℓ} : {A : Type ℓ} → Bool → Option A → Option A
kept b o = if b then o else none

unfoldable pub where_of : String → SearchFilters → RelaxOptions → Where
where_of tenant_id f opts = record {
  tenant_id = tenant_id;
  operation = some f.operation;
  neighborhoods = kept (is_nonempty f.neighborhoods) (some f.neighborhoods);
  max_price = kept (truthy_nat f.max_price) (scaled f.max_price opts.price_factor);
  currency = kept (truthy_nat f.max_price && truthy f.currency) f.currency;
  rooms =
      if opts.include_rooms && truthy_nat f.min_rooms then rooms_test f.min_rooms else any_rooms;
  garage = truthy_bool f.garage;
  pets_allowed = truthy_bool f.pets_allowed;
}

-- `Math.abs(a - b)`
abbrev pub distance : ℕ → ℕ → ℕ
distance a b = (a - b) + (b - a)

-- `operation ? { operation } : {}` and `neighborhood: { in: zones }`
abbrev pub stock_where : String → Option (List String) → Option OperationType → Where
stock_where tenant_id zones operation = record {
  tenant_id = tenant_id;
  operation = operation;
  neighborhoods = zones;
  max_price = none;
  currency = none;
  rooms = any_rooms;
  garage = false;
  pets_allowed = false;
}

-- `sorted[i]`, put before `rest`
abbrev pub pick_at : List Property → ℕ → List Property → List Property
pick_at sorted i rest = elim (get_elem? sorted i) [ none ↦ rest | some p ↦ p ∷ rest ]

-- Cheapest, middle and dearest of an ascending list; all of it where it is short.
unfoldable pub pick_price_range : List Property → ℕ → List Property
pick_price_range sorted limit =
    if leb (length sorted) limit
    then sorted
    else pick_at sorted 0
        (pick_at sorted (length sorted / 2) (pick_at sorted (length sorted - 1) []))

module _ (t : Table) (rate : ℕ) (tenant_id : String) where
  unfoldable pub to_comparable_ars : Property → ℕ
  to_comparable_ars p = if str_eq p.currency "USD" then p.price * rate else p.price

  -- The comparator of `query`: whether `a` may stand before `b`.
  unfoldable pub comes_before : Bool → Bool → ℕ → Property → Property → Bool
  unfolding to_comparable_ars
  comes_before pinned by_rooms target a b =
      let dist_a = distance (or_value a.rooms 0) target in
      let dist_b = distance (or_value b.rooms 0) target in
      let price_a = if pinned then a.price else to_comparable_ars a in
      let price_b = if pinned then b.price else to_comparable_ars b in
      if by_rooms && not (dist_a == dist_b) then ltb dist_a dist_b else leb price_a price_b

  -- The comparator for one attempt's rows: near the rooms asked for where that filter was
  -- dropped, then cheap.
  abbrev pub query_order : SearchFilters → RelaxOptions → Property → Property → Bool
  query_order f opts =
      comes_before (truthy_nat f.max_price && truthy f.currency)
        (not opts.include_rooms && is_some f.min_rooms) (or_value f.min_rooms 0)

  unfoldable pub query : SearchFilters → RelaxOptions → List Property
  query f opts =
      let pinned = truthy_nat f.max_price && truthy f.currency in
      let by_rooms = not opts.include_rooms && is_some f.min_rooms in
      let w = where_of tenant_id f opts in
      if pinned && not by_rooms
      then t.find_cheapest result_limit w
      else take result_limit (sort_by (query_order f opts) (t.find_first candidate_limit w))

  -- The loop of `search`: the first attempt that finds something.
  unfoldable pub first_hit : SearchFilters → List RelaxOptions → Option SearchOutcome
  first_hit f [] = none
  first_hit f (opts ∷ rest) =
      let found = query f opts in
      if is_nonempty found
      then some (record { properties = found; relaxed = opts.label })
      else first_hit f rest

  -- `count > 0` is that some row answers.
  unfoldable pub has_stock_in_zone : List String → Option OperationType → Bool
  has_stock_in_zone zones operation =
      if is_empty zones
      then true
      else is_nonempty (t.find_many (stock_where tenant_id (some zones) operation))

  unfoldable pub search : SearchFilters → SearchOutcome
  search f = elim (first_hit f (attempts f)) [
    | some outcome ↦ outcome
    | none ↦
        let stocked = has_stock_in_zone f.neighborhoods (some f.operation) in
        record {
          properties = [];
          relaxed = if is_nonempty f.neighborhoods && not stocked then some empty_zone else none;
        }
  ]

  -- What `searchAndRecordForLead` leaves in `lead.lastSearchIds`.
  unfoldable pub search_and_record : SearchFilters → List String → SearchOutcome × List String
  search_and_record f last_search_ids =
      let outcome = search f in
      (
        outcome,
        if is_nonempty outcome.properties
            then map (λ (p : Property). p.id) outcome.properties
            else last_search_ids,
      )

  unfoldable pub zones_with_stock : List String → Option OperationType → List String
  zones_with_stock candidates operation =
      let rows = t.find_many (stock_where tenant_id (some candidates) operation) in
      if is_empty candidates
      then []
      else filter (λ zone. includes (map (λ (p : Property). p.neighborhood) rows) zone) candidates

  unfoldable pub top_stock_zones : Option OperationType → ℕ → List String
  top_stock_zones operation limit = t.top_zones tenant_id operation limit

  unfoldable pub by_comparable_price : Property → Property → Bool
  unfolding to_comparable_ars
  by_comparable_price a b = leb (to_comparable_ars a) (to_comparable_ars b)

  -- The outcome, and the ids that replace `lead.lastSearchIds`.
  unfoldable pub teaser_search : OperationType → List String → SearchOutcome × List String
  teaser_search operation zones =
      let all = t.find_many (stock_where tenant_id (some zones) (some operation)) in
      let picked = pick_price_range (sort_by by_comparable_price all) result_limit in
      (record { properties = picked; relaxed = none }, map (λ (p : Property). p.id) picked)
