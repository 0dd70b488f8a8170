-- ===== src/Properties/Search/Laws.antt =====
-- What `search` returns, whatever the inventory and the filters.
use inmoagent.Prelude.{
  ℕ, ◌*◌, ◌≤◌, ◌<◌, String, Bool, true, false, Option, none, some, [], ◌≡◌, ◌≢◌, refl, ◌⊎◌, inl,
  inr, arith, Option-cases, Bool-cases, length, includes, is_nonempty, truthy, truthy_nat,
  truthy_bool, eq_iff, All, All-weaken,
}
use native.Mathlib.Nat.{le_trans}
use inmoagent.Domain.Property.{Property, operation_eq_sound, is_active}
use inmoagent.Properties.Table.{Table, Fits}
use inmoagent.Properties.Search.{
  SearchFilters, RelaxedCriterion, RelaxOptions, strict, attempts, where_of, query, first_hit,
  search, result_limit,
}
use inmoagent.Properties.Search.Query.{query-Fits, length-query, query_complete}
use inmoagent.Properties.Search.Attempts.{
  factor_of, IsCapped, attempts-IsCapped, outcome_of, first_hit_inv,
}

-- What no relaxation gives up: tenant, listing, operation, zone, garage, pets and currency.
pub record IsAllowed (tenant_id : String) (f : SearchFilters) (p : Property) : Type 0 where
  pub same_tenant : p.tenant_id ≡ tenant_id
  pub listed : is_active p.status ≡ true
  pub same_operation : f.operation ≡ p.operation
  pub in_zone : (f.neighborhoods ≡ []) ⊎ (includes f.neighborhoods p.neighborhood ≡ true)
  pub has_garage : (truthy_bool f.garage ≡ false) ⊎ (p.garage ≡ true)
  pub takes_pets : (truthy_bool f.pets_allowed ≡ false) ⊎ (truthy_bool p.pets_allowed ≡ true)
  pub same_currency :
      (truthy_nat f.max_price ≡ false)
      ⊎ (truthy f.currency ≡ false)
      ⊎ (f.currency ≡ some p.currency)

currency_allowed :
    (tenant_id : String) (f : SearchFilters) (opts : RelaxOptions) (p : Property)
    → Fits (where_of tenant_id f opts) p
    → (truthy_nat f.max_price ≡ false)
      ⊎ (truthy f.currency ≡ false)
      ⊎ (f.currency ≡ some p.currency)
unfolding where_of
currency_allowed tenant_id f opts p h = elim (Option-cases f.currency) [
  | inl e ↦ inr (inl (ground (arith, e)))
  | inr (c, e) ↦ ground (arith, e, h.currency_fits, eq_iff c p.currency)
]

Fits-IsAllowed :
    (tenant_id : String) (f : SearchFilters) (opts : RelaxOptions) (p : Property)
    → Fits (where_of tenant_id f opts) p
    → IsAllowed tenant_id f p
unfolding where_of
Fits-IsAllowed tenant_id f opts p h = record {
  same_tenant = (eq_iff _ _).0 h.of_tenant;
  listed = h.is_listed;
  same_operation = operation_eq_sound _ _ h.operation_fits;
  in_zone = ground (arith, h.zone_fits);
  has_garage = ground (arith, h.garage_fits);
  takes_pets = ground (arith, h.pets_fit);
  same_currency = currency_allowed tenant_id f opts p h;
}

-- The price bound that a reply's label promises for a budget `m`.
abbrev pub WithinBudget : Bool → ℕ → Option RelaxedCriterion → Property → Type 0
WithinBudget flexible m label p = elim (factor_of flexible label) [
  | none ↦ Unit
  | some k ↦ p.price * 100 ≤ m * k
]

module _ (t : Table) (rate : ℕ) (tenant_id : String) (f : SearchFilters) where
  -- How the outcome of `search` comes about.
  search_inv :
      ((opts : RelaxOptions) × IsCapped f opts
        × (search t rate tenant_id f ≡ outcome_of t rate tenant_id f opts))
      ⊎ ((search t rate tenant_id f).properties ≡ [])
  unfolding search
  search_inv = elim (Option-cases (first_hit t rate tenant_id f (attempts f))) [
    | inl e ↦ inr (rw (e, search))
    | inr (o, e) ↦
        let (opts, capped, eq) =
          first_hit_inv t rate tenant_id f (IsCapped f) (attempts f) o (attempts-IsCapped f) e in
        inl (opts, capped, rw (e, search) eq)
  ]

  -- Every property that a search returns is of the tenant, listed, of the operation asked for, in
  -- one of the zones asked for if there are any, and has the garage, the pets' permission and,
  -- under a budget, the currency asked for, whatever was relaxed.
  pub search-IsAllowed : All (IsAllowed tenant_id f) (search t rate tenant_id f).properties
  search-IsAllowed = elim search_inv [
    | inl (opts, _, e) ↦
        rw e (All-weaken (Fits-IsAllowed tenant_id f opts) _ (query-Fits t rate tenant_id f opts))
    | inr e ↦ rw e tt
  ]

  -- A search returns at most three properties.
  pub length-search : length (search t rate tenant_id f).properties ≤ result_limit
  length-search = elim search_inv [
    | inl (opts, _, e) ↦ rw e (length-query t rate tenant_id f opts)
    | inr e ↦ rw e (omega arith)
  ]

  scaled_row :
      (opts : RelaxOptions) (m j : ℕ) (p : Property)
      → f.max_price ≡ some m
      → 0 < m
      → opts.price_factor ≡ some j
      → Fits (where_of tenant_id f opts) p
      → p.price * 100 ≤ m * j
  unfolding where_of
  scaled_row opts m j p e pos factor h = ground (arith, h.price_fits)

  capped_row :
      (opts : RelaxOptions) (m : ℕ) (p : Property)
      → IsCapped f opts
      → f.max_price ≡ some m
      → 0 < m
      → Fits (where_of tenant_id f opts) p
      → WithinBudget f.price_flexible m opts.label p
  capped_row opts m p capped e pos h = bounded (factor_of f.price_flexible opts.label) (λ k bound.
      let (j, factor, le) = capped (rw e (ground arith)) k bound in
      le_trans (scaled_row opts m j p e pos factor h) (grind arith))
    where
      bounded :
          (o : Option ℕ)
          → ((k : ℕ) → o ≡ some k → p.price * 100 ≤ m * k)
          → (elim o as (λ _. Type 0) [ none ↦ Unit | some k ↦ p.price * 100 ≤ m * k ])
      bounded none g = tt
      bounded (some k) g = g k refl

  -- Under a budget `m`, a search that relaxed nothing returns prices of at most 110% of it; one
  -- labelled `price` at most 125%, or 150% if the lead said this turn that the price can stretch;
  -- one labelled `rooms` at most 125%.
  pub search-WithinBudget :
      (m : ℕ)
      → f.max_price ≡ some m
      → 0 < m
      → All
          (WithinBudget f.price_flexible m (search t rate tenant_id f).relaxed)
          (search t rate tenant_id f).properties
  search-WithinBudget m e pos = elim search_inv [
    | inl (opts, capped, eq) ↦
        rw eq (
          All-weaken (λ p. capped_row opts m p capped e pos) _ (query-Fits t rate tenant_id f opts))
    | inr eq ↦ rw eq tt
  ]

  -- A search that names a relaxation has found that no stored property meets every criterion as
  -- given, with 10% on the price.
  pub search-strict_first :
      (search t rate tenant_id f).relaxed ≢ none
      → (p : Property) → t.find_unique p.id ≡ some p
      → ¬ Fits (where_of tenant_id f strict) p
  unfolding search first_hit attempts
  search-strict_first h p stored =
      elim (Bool-cases (is_nonempty (query t rate tenant_id f strict))) [
        | inl found ↦ absurd (h (rw (found, search)))
        | inr missed ↦ query_complete t rate tenant_id f strict (ground arith) p stored
      ]
