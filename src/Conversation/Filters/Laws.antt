-- ===== src/Conversation/Filters/Laws.antt =====
-- When a budget goes stale, and what a later turn does to the filters.
use inmoagent.Prelude.{
  ℕ, ◌+◌, ◌≤◌, ◌<◌, ◌++◌, refl, inl, inr, Bool-cases, dedupe, String, true, none, some, List, [],
  ◌∷◌, ◌≡◌, ◌≢◌, ◌↔◌, arith, is_nonempty,
}
use inmoagent.Domain.Extraction.{ExtractionResult}
use inmoagent.Conversation.Types.{LeadFilters}
use inmoagent.Conversation.Filters.{
  is_price_stale, merge_neighborhoods, merge_filters, count_filled_core_filters,
}

-- A budget is stale exactly if it was noted more than three turns before the current one.
pub is_price_stale_iff :
    (filters : LeadFilters) (n : ℕ)
    → (is_price_stale filters n ≡ true) ↔ (
        (filters.f_max_price ≢ none)
        × ((at : ℕ) × (filters.f_price_mentioned_at_turn ≡ some at) × (at + 3 < n)))
unfolding is_price_stale
is_price_stale_iff filters n = ground arith

dedupe-nonempty : (x : String) (xs ys : List String) → is_nonempty (dedupe ((x ∷ xs) ++ ys)) ≡ true
dedupe-nonempty x xs ys = refl

merge_neighborhoods-nonempty :
    (current : List String) (extraction : ExtractionResult)
    → is_nonempty current ≡ true
    → is_nonempty (merge_neighborhoods current extraction) ≡ true
unfolding merge_neighborhoods
merge_neighborhoods-nonempty [] extraction h = cc
merge_neighborhoods-nonempty (x ∷ xs) extraction h =
    ground (arith, dedupe-nonempty x xs extraction.neighborhoods)

-- A turn never empties one of the three core filters: as many are filled after it as before.
pub merge_filters-count :
    (current : LeadFilters) (extraction : ExtractionResult)
    → count_filled_core_filters current
      ≤ count_filled_core_filters (merge_filters current extraction)
unfolding count_filled_core_filters merge_filters
merge_filters-count current extraction = elim (Bool-cases (is_nonempty current.f_neighborhoods)) [
  | inl zone ↦
      ground (arith, zone, merge_neighborhoods-nonempty current.f_neighborhoods extraction zone)
  | inr no_zone ↦ ground (arith, no_zone)
]
