-- ===== src/Properties/Search/Teaser.antt =====
-- The search that shows a lead something before every filter is known.
use inmoagent.Prelude.{
  ℕ, zero, suc, ◌≤◌, ◌/◌, ◌-◌, String, some, List, [], ◌∷◌, ◌≡◌, refl, arith, inl, inr, Bool-cases,
  Option-cases, leb, length, get_elem?, All, sort_by-All, map,
}
use inmoagent.Domain.Property.{OperationType, Property}
use inmoagent.Properties.Table.{Table, Fits}
use inmoagent.Properties.Search.{
  stock_where, pick_at, pick_price_range, teaser_search, result_limit,
}

module _ {A : Type 0} (P : A → Type 0) where
  get_elem?-All : (xs : List A) (i : ℕ) (a : A) → All P xs → get_elem? xs i ≡ some a → P a
  get_elem?-All [] i a h e = cc
  get_elem?-All (x ∷ xs) zero a h e = ground (arith, h.0)
  get_elem?-All (x ∷ xs) (suc i) a h e = get_elem?-All xs i a h.1 e

pick_at-All :
    (P : Property → Type 0) (sorted : List Property) (i : ℕ) (rest : List Property)
    → All P sorted
    → All P rest
    → All P (pick_at sorted i rest)
pick_at-All P sorted i rest h k = elim (Option-cases (get_elem? sorted i)) [
  | inl e ↦ rw (pick_at, e) k
  | inr (p, e) ↦ rw (pick_at, e) (get_elem?-All P sorted i p h e, k)
]

length-pick_at :
    (sorted : List Property) (i : ℕ) (rest : List Property)
    → length (pick_at sorted i rest) ≤ suc (length rest)
length-pick_at sorted i rest = elim (Option-cases (get_elem? sorted i)) [
  | inl e ↦ rw (pick_at, e) (omega arith)
  | inr (p, e) ↦ rw (pick_at, e) (omega arith)
]

pick_price_range-All :
    (P : Property → Type 0) (sorted : List Property) (limit : ℕ)
    → All P sorted
    → All P (pick_price_range sorted limit)
unfolding pick_price_range
pick_price_range-All P sorted limit h = elim (Bool-cases (leb (length sorted) limit)) [
  | inl e ↦ rw e h
  | inr e ↦ rw e (
      pick_at-All P sorted 0 _ h (
        pick_at-All P sorted (length sorted / 2) _ h
          (pick_at-All P sorted (length sorted - 1) [] h tt)))
]

length-pick_price_range : (sorted : List Property) → length (pick_price_range sorted 3) ≤ 3
unfolding pick_price_range
length-pick_price_range sorted = elim (Bool-cases (leb (length sorted) 3)) [
  | inl e ↦ rw e (ground (arith, e))
  | inr e ↦
      let last = pick_at sorted (length sorted - 1) [] in
      let middle = pick_at sorted (length sorted / 2) last in
      rw e (
        omega (
          arith,
          length-pick_at sorted 0 middle,
          length-pick_at sorted (length sorted / 2) last,
          length-pick_at sorted (length sorted - 1) [],
        ))
]

-- The teaser shows at most three properties, each of the tenant, listed, of the operation and in
-- one of the zones, and the ids that it records are exactly theirs.
pub teaser_search-Fits :
    (t : Table) (rate : ℕ) (tenant_id : String) (operation : OperationType) (zones : List String)
    → let r = teaser_search t rate tenant_id operation zones in
      (length r.0.properties ≤ 3)
      × All (Fits (stock_where tenant_id (some zones) (some operation))) r.0.properties
      × (r.1 ≡ map (λ (p : Property). p.id) r.0.properties)
unfolding teaser_search
teaser_search-Fits t rate tenant_id operation zones = (
  length-pick_price_range _,
  pick_price_range-All _ _ result_limit
      (sort_by-All _ _ _ (t.find_many_fit (stock_where tenant_id (some zones) (some operation)))),
  refl,
)
