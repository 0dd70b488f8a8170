-- ===== src/Properties/Search/Order.antt =====
-- The order in which a query's rows are shown.
use inmoagent.Prelude.{
  ◌+◌, ◌*◌, ◌≤◌, ◌<◌, ◌≢◌, ◌⊎◌, inl, inr, none, some, sym, Bool-cases, Option-cases, leb, ltb,
  str_eq, eq_iff, ℕ, zero, suc, String, Bool, true, false, not, ◌&&◌, List, [], ◌∷◌, ◌≡◌, arith,
  take, if◌then◌else◌, IsSorted, sort_by-IsSorted, sort_by, or_value, is_some, truthy, truthy_nat,
}
use inmoagent.Domain.Property.{Property}
use inmoagent.Properties.Table.{Table, Where}
use inmoagent.Properties.Search.{
  SearchFilters, RelaxOptions, query, query_order, comes_before, where_of, result_limit,
  candidate_limit, distance, to_comparable_ars,
}

module _ {A : Type 0} (le : A → A → Bool) where
  take-IsSorted : (n : ℕ) (xs : List A) → IsSorted le xs → IsSorted le (take n xs)
  take-IsSorted zero xs h = tt
  take-IsSorted (suc n) [] h = tt
  take-IsSorted (suc zero) (x ∷ xs) h = tt
  take-IsSorted (suc (suc n)) (x ∷ []) h = tt
  take-IsSorted (suc (suc n)) (x ∷ y ∷ ys) h = (h.0, take-IsSorted (suc n) (y ∷ ys) h.1)

module _ (t : Table) (rate : ℕ) (tenant_id : String) where
  comes_before_total :
      (pinned by_rooms : Bool) (target : ℕ) (a b : Property)
      → comes_before t rate tenant_id pinned by_rooms target a b ≡ false
      → comes_before t rate tenant_id pinned by_rooms target b a ≡ true
  unfolding comes_before
  comes_before_total pinned by_rooms target a b h = ground arith

  IsSorted-take :
      (pinned by_rooms : Bool) (target : ℕ) (rows : List Property)
      → IsSorted
          (comes_before t rate tenant_id pinned by_rooms target)
          (take result_limit (sort_by (comes_before t rate tenant_id pinned by_rooms target) rows))
  IsSorted-take pinned by_rooms target rows =
      take-IsSorted _ result_limit _
        (sort_by-IsSorted _ (comes_before_total pinned by_rooms target) rows)

  IsSorted-rows :
      (pinned by_rooms : Bool) (target : ℕ) (w : Where)
      → IsSorted (comes_before t rate tenant_id pinned by_rooms target) (
          if pinned && not by_rooms
          then t.find_cheapest result_limit w
          else take result_limit (
              sort_by
                (comes_before t rate tenant_id pinned by_rooms target)
                (t.find_first candidate_limit w)))
  unfolding comes_before
  IsSorted-rows true false target w = t.find_cheapest_sorted result_limit w
  IsSorted-rows true true target w = IsSorted-take true true target (t.find_first candidate_limit w)
  IsSorted-rows false b target w = IsSorted-take false b target (t.find_first candidate_limit w)

  query-IsSorted :
      (f : SearchFilters) (opts : RelaxOptions)
      → IsSorted (query_order t rate tenant_id f opts) (query t rate tenant_id f opts)
  unfolding query
  query-IsSorted f opts =
      IsSorted-rows (truthy_nat f.max_price && truthy f.currency)
        (not opts.include_rooms && is_some f.min_rooms) (or_value f.min_rooms 0)
        (where_of tenant_id f opts)

-- How far a property's rooms are from a number; none counts as 0.
abbrev pub Gap : ℕ → Property → ℕ → Type 0
Gap target p d = (or_value p.rooms 0 + d ≡ target) ⊎ (target + d ≡ or_value p.rooms 0)

-- A price in pesos, at so many for a dollar.
abbrev pub InPesos : ℕ → Property → ℕ → Type 0
InPesos rate p v =
    ((p.currency ≡ "USD") × (v ≡ p.price * rate)) ⊎ ((p.currency ≢ "USD") × (v ≡ p.price))

-- The filter has a budget in a currency.
abbrev pub Pinned : SearchFilters → Type 0
Pinned f =
    (m : ℕ) × (c : String) × (f.max_price ≡ some m) × (0 < m) × (f.currency ≡ some c) × (c ≢ "")

-- Compared as they are under such a budget, else in pesos.
abbrev pub NoDearer : ℕ → SearchFilters → Property → Property → Type 0
NoDearer rate f a b =
    (Pinned f → a.price ≤ b.price)
    × (¬ Pinned f → (v w : ℕ) → InPesos rate a v → InPesos rate b w → v ≤ w)

-- `a` may be shown before `b` under a filter. If the rooms were given up: it is no farther from the rooms
-- asked for. And it is no dearer, unless it is nearer: in the currency asked for where the filter has
-- a budget in one, else in pesos.
pub record Precedes (rate : ℕ) (f : SearchFilters) (opts : RelaxOptions) (a b : Property)
    : Type 0 where
  pub near :
      (n d e : ℕ)
      → opts.include_rooms ≡ false
      → f.min_rooms ≡ some n
      → Gap n a d
      → Gap n b e
      → d ≤ e
  pub cheap_kept : (opts.include_rooms ≡ true) ⊎ (f.min_rooms ≡ none) → NoDearer rate f a b
  pub cheap_tied :
      (n d : ℕ)
      → opts.include_rooms ≡ false
      → f.min_rooms ≡ some n
      → Gap n a d
      → Gap n b d
      → NoDearer rate f a b

-- every element precedes its successor
abbrev pub InOrder : (Property → Property → Type 0) → List Property → Type 0
InOrder R [] = Unit
InOrder R (p ∷ []) = Unit
InOrder R (p ∷ q ∷ ps) = R p q × InOrder R (q ∷ ps)

InOrder-IsSorted :
    (le : Property → Property → Bool) (R : Property → Property → Type 0)
    → ((a b : Property) → le a b ≡ true → R a b)
    → (ps : List Property) → IsSorted le ps
    → InOrder R ps
InOrder-IsSorted le R h [] s = tt
InOrder-IsSorted le R h (p ∷ []) s = tt
InOrder-IsSorted le R h (p ∷ q ∷ ps) s = (h p q s.0, InOrder-IsSorted le R h (q ∷ ps) s.1)

Gap-distance : (n : ℕ) (p : Property) (d : ℕ) → Gap n p d → distance (or_value p.rooms 0) n ≡ d
Gap-distance n p d (inl e) = omega (arith, e)
Gap-distance n p d (inr e) = omega (arith, e)

module _ (t : Table) (rate : ℕ) (tenant_id : String) (f : SearchFilters) (opts : RelaxOptions) where
  pesos_eq : (p : Property) (v : ℕ) → InPesos rate p v → to_comparable_ars t rate tenant_id p ≡ v
  unfolding to_comparable_ars
  pesos_eq p v (inl (c, e)) = rw c (sym e)
  pesos_eq p v (inr (c, e)) = ground (arith, e, eq_iff p.currency "USD", c)

  Pinned-true : Pinned f → (truthy_nat f.max_price && truthy f.currency) ≡ true
  Pinned-true (m, c, e, pos, k, h) = rw (e, k) (ground (arith, pos, eq_iff c "", h))

  Pinned-sound : (truthy_nat f.max_price && truthy f.currency) ≡ true → Pinned f
  Pinned-sound h = elim (Option-cases f.max_price) [
    | inl e ↦ absurd (cc (rw e at h))
    | inr (m, e) ↦ elim (Option-cases f.currency) [
      | inl k ↦ absurd (ground (arith, rw (e, k) at h))
      | inr (c, k) ↦
          let both : (ltb 0 m && not (str_eq c "")) ≡ true = rw (e, k) at h in
          (m, c, e, ground (arith, both), k, λ q. ground (arith, both, eq_iff c "", q))
    ]
  ]

  -- The price that the comparator takes.
  abbrev price_of : Bool → Property → ℕ
  price_of pinned p = if pinned then p.price else to_comparable_ars t rate tenant_id p

  no_dearer :
      (a b : Property)
      → (let pinned = truthy_nat f.max_price && truthy f.currency in
          leb (price_of pinned a) (price_of pinned b) ≡ true)
      → NoDearer rate f a b
  no_dearer a b h = elim (Bool-cases (truthy_nat f.max_price && truthy f.currency)) [
    | inl e ↦ (λ pinned. ground (arith, rw e at h), λ unpinned. absurd (unpinned (Pinned-sound e)))
    | inr e ↦ (
      λ pinned. absurd (cc (Pinned-true pinned, e)),
      λ unpinned v w cost_a cost_b.
          ground (arith, rw e at h, pesos_eq a v cost_a, pesos_eq b w cost_b),
    )
  ]

  query_order-Precedes :
      (a b : Property) → query_order t rate tenant_id f opts a b ≡ true → Precedes rate f opts a b
  unfolding comes_before
  query_order-Precedes a b h = record {
    near = λ n d e given_up asked gap_a gap_b.
        ground
          (arith, rw (given_up, asked) at h, Gap-distance n a d gap_a, Gap-distance n b e gap_b);
    cheap_kept =
        λ kept. no_dearer a b (elim kept [ inl e ↦ rw e at h | inr e ↦ ground (arith, rw e at h) ]);
    cheap_tied = λ n d given_up asked gap_a gap_b. no_dearer a b (
        ground
          (arith, rw (given_up, asked) at h, Gap-distance n a d gap_a, Gap-distance n b d gap_b));
  }

  -- The rows of every query are in this order, whether the database sorted them or the code did: where
  -- the rooms were given up, nearest to the rooms asked for first; then, or else, cheapest first, in the
  -- currency of the budget if the filter has one, and in pesos by the rate if not.
  pub query-InOrder : InOrder (Precedes rate f opts) (query t rate tenant_id f opts)
  query-InOrder =
      InOrder-IsSorted _ (Precedes rate f opts) query_order-Precedes _
        (query-IsSorted t rate tenant_id f opts)
