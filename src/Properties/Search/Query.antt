-- ===== src/Properties/Search/Query.antt =====
-- One query of the search: what its rows satisfy, how many there are, and when there are none.
use inmoagent.Prelude.{
  ℕ, suc, ◌≤◌, String, some, List, [], ◌∷◌, ◌≡◌, refl, sym, ◌∙◌, ◌⊎◌, inl, inr, arith, length,
  length-take, length-sort_by, take, All, All-take, Bool, sort_by, sort_by-All,
}
use inmoagent.Domain.Property.{Property}
use inmoagent.Properties.Table.{Table, Fits}
use inmoagent.Properties.Search.{
  SearchFilters, RelaxOptions, where_of, query_order, query, result_limit, candidate_limit,
}

take-nil {ℓ} : {A : Type ℓ} (n : ℕ) (xs : List A) → take (suc n) xs ≡ [] → xs ≡ []
take-nil n [] h = refl
take-nil n (x ∷ xs) h = cc

sort_by-nil {ℓ} : {A : Type ℓ} (le : A → A → Bool) (xs : List A) → sort_by le xs ≡ [] → xs ≡ []
sort_by-nil le [] h = refl
sort_by-nil le (x ∷ xs) h = absurd (omega (arith, length-sort_by le (x ∷ xs), len h))
  where
    len : sort_by le (x ∷ xs) ≡ [] → length (sort_by le (x ∷ xs)) ≡ 0
    len e = rw e

module _ (t : Table) (rate : ℕ) (tenant_id : String) (f : SearchFilters) (opts : RelaxOptions) where
  abbrev sorted_rows : List Property
  sorted_rows = take result_limit (
      sort_by (query_order t rate tenant_id f opts)
        (t.find_first candidate_limit (where_of tenant_id f opts)))

  -- The rows come from the database in order, or are sorted here.
  query_cases :
      (query t rate tenant_id f opts ≡ t.find_cheapest result_limit (where_of tenant_id f opts))
      ⊎ (query t rate tenant_id f opts ≡ sorted_rows)
  unfolding query
  query_cases = ground arith

  pub query-Fits : All (Fits (where_of tenant_id f opts)) (query t rate tenant_id f opts)
  query-Fits = elim query_cases [
    | inl e ↦ rw e (t.find_cheapest_fit result_limit (where_of tenant_id f opts))
    | inr e ↦ rw e (
        All-take _ result_limit _
          (sort_by-All _ _ _ (t.find_first_fit candidate_limit (where_of tenant_id f opts))))
  ]

  pub length-query : length (query t rate tenant_id f opts) ≤ result_limit
  length-query = elim query_cases [
    | inl e ↦ rw e (t.find_cheapest_length result_limit (where_of tenant_id f opts))
    | inr e ↦ rw e (length-take result_limit _)
  ]

  -- A query that answers nothing: no stored row meets it.
  pub query_complete :
      query t rate tenant_id f opts ≡ []
      → (p : Property) → t.find_unique p.id ≡ some p
      → ¬ Fits (where_of tenant_id f opts) p
  query_complete h = elim query_cases [
    | inl e ↦ t.find_cheapest_complete 2 _ (sym e ∙ h)
    | inr e ↦ t.find_first_complete 99 _ (sort_by-nil _ _ (take-nil 2 _ (sym e ∙ h)))
  ]
