-- ===== src/Properties/Search/Attempts.antt =====
-- The list of attempts and the loop over it.
use inmoagent.Prelude.{
  ℕ, ◌≤◌, String, Bool, true, false, Option, none, some, List, [], ◌∷◌, ◌≡◌, refl, inl, inr, arith,
  if◌then◌else◌, Bool-cases, truthy_nat, is_nonempty, All,
}
use inmoagent.Properties.Table.{Table}
use inmoagent.Properties.Search.{
  SearchFilters, RelaxedCriterion, rooms, price, over_budget, empty_zone, SearchOutcome,
  RelaxOptions, push_if, attempts, query, first_hit,
}

-- The most that a reply's label allows over the budget, in percent; `none` is no bound.
abbrev pub factor_of : Bool → Option RelaxedCriterion → Option ℕ
factor_of flexible none = some 110
factor_of flexible (some price) = if flexible then some 150 else some 125
factor_of flexible (some rooms) = some 125
factor_of flexible (some over_budget) = none
factor_of flexible (some empty_zone) = none

-- An attempt filters by no more than what its label allows.
abbrev pub IsCapped : SearchFilters → RelaxOptions → Type 0
IsCapped f opts =
    truthy_nat f.max_price ≡ true
    → (k : ℕ) → factor_of f.price_flexible opts.label ≡ some k
    → (j : ℕ) × (opts.price_factor ≡ some j) × (j ≤ k)

push_if-All {ℓ} :
    {A : Type ℓ} (P : A → Type 0) (b : Bool) (a : A) (later : List A)
    → (b ≡ true → P a)
    → All P later
    → All P (push_if b a later)
unfolding push_if
push_if-All P true a later h k = (h refl, k)
push_if-All P false a later h k = k

pub attempts-IsCapped : (f : SearchFilters) → All (IsCapped f) (attempts f)
unfolding attempts
attempts-IsCapped f = (
  λ _ k e. (110, refl, ground arith),
  push_if-All (IsCapped f) _ _ _ (λ _ _ k e. (125, refl, ground arith))
      (push_if-All (IsCapped f) _ _ _ (λ b _ k e. (150, refl, ground arith))
        (push_if-All (IsCapped f) _ _ _ (λ _ h k e. (125, rw h, ground arith))
          (push_if-All (IsCapped f) _ _ _ (λ _ _ k e. absurd (ground arith))
            (push_if-All (IsCapped f) _ _ _ (λ _ _ k e. absurd (ground arith)) tt)))),
)

module _ (t : Table) (rate : ℕ) (tenant_id : String) (f : SearchFilters) where
  abbrev pub outcome_of : RelaxOptions → SearchOutcome
  outcome_of opts = record { properties = query t rate tenant_id f opts; relaxed = opts.label }

  -- What the loop returns is the answer of one of its attempts.
  pub first_hit_inv :
      (P : RelaxOptions → Type 0) (os : List RelaxOptions) (o : SearchOutcome)
      → All P os
      → first_hit t rate tenant_id f os ≡ some o
      → (opts : RelaxOptions) × P opts × (o ≡ outcome_of opts)
  unfolding first_hit
  first_hit_inv P [] o h e = cc
  first_hit_inv P (opts ∷ rest) o h e =
      elim (Bool-cases (is_nonempty (query t rate tenant_id f opts))) [
        | inl hit ↦ (opts, h.0, ground arith)
        | inr miss ↦ first_hit_inv P rest o h.1 (ground arith)
      ]
