-- ===== src/Tests/Search.antt =====
-- Searches on the database with one property.
use inmoagent.Domain.Property.{rent, Property}
use inmoagent.Properties.Search.Teaser.{teaser_search-Fits}
use inmoagent.Properties.Search.Order.{Precedes, InOrder, query-InOrder}
use inmoagent.Prelude.{
  map, some, ◌∷◌, [], true, ◌≤◌, false, none, ◌≡◌, ◌≢◌, refl, arith, sort_by, All, length,
}
use inmoagent.Properties.Table.{Fits}
use inmoagent.Properties.Search.{
  teaser_search, stock_where, drop_rooms, rooms, strict, search, where_of, query, first_hit,
  attempts, push_if,
}
use inmoagent.Properties.Search.Laws.{
  IsAllowed, WithinBudget, search-IsAllowed, search-WithinBudget, search-strict_first,
}
use inmoagent.Tests.Data.{flat, one_flat, rent_request}

-- Three rooms are wanted and two are there: the search gives up the rooms.
search_relaxes :
    search one_flat 1000 "t1" rent_request ≡ record { properties = flat ∷ []; relaxed = some rooms }
unfolding search first_hit attempts query where_of push_if sort_by
search_relaxes = refl

was_relaxed : (search one_flat 1000 "t1" rent_request).relaxed ≢ none
was_relaxed = λ e. cc (e, search_relaxes)

search-IsAllowed_example :
    All (IsAllowed "t1" rent_request) (search one_flat 1000 "t1" rent_request).properties
search-IsAllowed_example = search-IsAllowed one_flat 1000 "t1" rent_request

search-WithinBudget_example :
    All
      (WithinBudget false 480000 (search one_flat 1000 "t1" rent_request).relaxed)
      (search one_flat 1000 "t1" rent_request).properties
search-WithinBudget_example =
    search-WithinBudget one_flat 1000 "t1" rent_request 480000 refl (omega arith)

search-strict_first_example : ¬ Fits (where_of "t1" rent_request strict) flat
search-strict_first_example =
    search-strict_first one_flat 1000 "t1" rent_request was_relaxed flat refl

query-InOrder_example :
    InOrder
      (Precedes 1000 rent_request (drop_rooms true))
      (query one_flat 1000 "t1" rent_request (drop_rooms true))
query-InOrder_example = query-InOrder one_flat 1000 "t1" rent_request (drop_rooms true)

teaser_search-Fits_example :
    let r = teaser_search one_flat 1000 "t1" rent ("Centro" ∷ []) in
    (length r.0.properties ≤ 3)
    × All (Fits (stock_where "t1" (some ("Centro" ∷ [])) (some rent))) r.0.properties
    × (r.1 ≡ map (λ (p : Property). p.id) r.0.properties)
teaser_search-Fits_example = teaser_search-Fits one_flat 1000 "t1" rent ("Centro" ∷ [])
