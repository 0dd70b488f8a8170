-- ===== src/Conversation/Handlers/Qualification/Recording.antt =====
-- The searches of a qualification record what they show.
use inmoagent.Prelude.{
  ℕ, suc, String, Bool, true, false, ◌&&◌, Option, none, some, List, [], ◌∷◌, ◌++◌, map, ◌≡◌, refl,
  arith, inl, inr, Bool-cases, Option-cases, eq_iff, includes, is_nonempty, length, if◌then◌else◌,
  All, All-append, All-weaken,
}
use inmoagent.Domain.Property.{OperationType, Property}
use inmoagent.Domain.Lead.{search_match, is_search_match}
use inmoagent.Properties.Search.{SearchOutcome, search, search_and_record, teaser_search}
use inmoagent.Conversation.Types.{
  LeadFilters, HandlerContext, HandlerResult, OutgoingAction, text, property, Text,
  search_closing_question, name_request, teaser_closing_question, teaser_intro, same_results,
}
use inmoagent.Conversation.World.{Env, World, set_last_search_ids}
use inmoagent.Conversation.Handlers.Scheduling.{lead_seed}
use inmoagent.Conversation.Handlers.Qualification
use inmoagent.Conversation.Handlers.Qualification.Searching.{
  should_ask_name, reply, property_actions, ask_missing_filter, trigger_search, trigger_teaser,
  no_results_reply, results_reply, search_filters,
}

-- An action shows no property, or one whose id is listed.
abbrev pub IsRecorded : List String → OutgoingAction → Type 0
IsRecorded ids (text t) = Unit
IsRecorded ids (property p i f) = includes ids p.id ≡ true

abbrev ids_of : List Property → List String
ids_of ps = map (λ (p : Property). p.id) ps

ids_of-includes : (ps : List Property) → All (λ p. includes (ids_of ps) p.id ≡ true) ps
ids_of-includes [] = tt
ids_of-includes (p ∷ ps) = (
  rw ((eq_iff p.id p.id).1 refl) refl,
  All-weaken (λ q h. ground (arith, h)) ps (ids_of-includes ps),
)

property_actions-IsRecorded :
    (ids : List String) (filters : Option LeadFilters) (i : ℕ) (ps : List Property)
    → All (λ p. includes ids p.id ≡ true) ps
    → All (IsRecorded ids) (property_actions filters i ps)
unfolding property_actions
property_actions-IsRecorded ids filters i [] h = tt
property_actions-IsRecorded ids filters i (p ∷ ps) h =
    (h.0, property_actions-IsRecorded ids filters (suc i) ps h.1)

-- Whether every property that the actions show has its id listed.
abbrev pub shows_only : List String → List OutgoingAction → Bool
shows_only ids [] = true
shows_only ids (text t ∷ actions) = shows_only ids actions
shows_only ids (property p i f ∷ actions) = includes ids p.id && shows_only ids actions

shows_only-All :
    (ids : List String) (actions : List OutgoingAction)
    → All (IsRecorded ids) actions
    → shows_only ids actions ≡ true
shows_only-All ids [] h = refl
shows_only-All ids (text t ∷ actions) h = shows_only-All ids actions h.1
shows_only-All ids (property p i f ∷ actions) h = rw h.0 (shows_only-All ids actions h.1)

-- What the result shows is recorded in the row that the handler leaves.
abbrev pub Records : HandlerResult × World → Type 0
Records r = shows_only r.1.lead.last_search_ids r.0.actions ≡ true

module _ (env : Env) (ctx : HandlerContext) (filters : LeadFilters) where
  ask_missing_filter-texts :
      (ids : List String) (prefix : Option Text)
      → shows_only ids (ask_missing_filter env ctx filters prefix).actions ≡ true
  unfolding ask_missing_filter
  ask_missing_filter-texts ids prefix = ground arith

  no_results-texts :
      (ids : List String) (outcome : SearchOutcome)
      → shows_only ids (no_results_reply env ctx filters outcome).actions ≡ true
  unfolding no_results_reply
  no_results-texts ids outcome = ground arith

  results-IsRecorded :
      (outcome : SearchOutcome)
      → All (IsRecorded (ids_of outcome.properties)) (results_reply ctx filters outcome).actions
  unfolding results_reply
  results-IsRecorded outcome = elim (Bool-cases (is_search_match ctx.lead.state)) [
    | inl e ↦ rw e (tt, rest)
    | inr e ↦ rw e (tt, (tt, rest))
  ]
    where
      rest : All (IsRecorded (ids_of outcome.properties)) (
          property_actions (some filters) 1 outcome.properties
          ++ text (search_closing_question (length outcome.properties) (lead_seed ctx))
            ∷ (if should_ask_name ctx then text (name_request (lead_seed ctx)) ∷ [] else []))
      rest =
          All-append _ (property_actions (some filters) 1 outcome.properties) _
            (property_actions-IsRecorded _ _ 1 outcome.properties
              (ids_of-includes outcome.properties))
            (tt, ground arith)

  found-Records :
      (same found : Bool) (outcome : SearchOutcome) (w : World)
      → let ids = if found then ids_of outcome.properties else w.lead.last_search_ids in
        let w' = set_last_search_ids ids w in
        Records (
          if same
          then (reply (text (same_results (lead_seed ctx)) ∷ []) search_match (some filters), w')
          else if found
          then (results_reply ctx filters outcome, w')
          else (no_results_reply env ctx filters outcome, w'))
  unfolding set_last_search_ids
  found-Records true found outcome w = refl
  found-Records false true outcome w =
      shows_only-All (ids_of outcome.properties) _ (results-IsRecorded outcome)
  found-Records false false outcome w = no_results-texts w.lead.last_search_ids outcome

  trigger_search-Records :
      (operation : OperationType) (w : World) → Records (trigger_search env ctx operation filters w)
  unfolding trigger_search search_and_record
  trigger_search-Records operation w =
      let outcome =
        search env.table env.usd_ars_rate ctx.tenant.id (search_filters ctx operation filters) in
      found-Records _ (is_nonempty outcome.properties) outcome w

  teased-Records :
      (ps : List Property) (none_there asks : Bool) (w : World)
      → let w' = set_last_search_ids (ids_of ps) w in
        let closing : List OutgoingAction =
          text (teaser_closing_question (length ps))
          ∷ (if asks then text (name_request (lead_seed ctx)) ∷ [] else []) in
        Records (
          if none_there then (ask_missing_filter env ctx filters none, w') else (
            record (reply
                (text (teaser_intro filters.f_neighborhoods (lead_seed ctx))
                  ∷ (property_actions (some filters) 1 ps ++ closing))
                search_match
                (some filters)) { mark_name_asked = asks },
            w',
          ))
  unfolding set_last_search_ids
  teased-Records ps true asks w = ask_missing_filter-texts (ids_of ps) none
  teased-Records ps false asks w =
      shows_only-All (ids_of ps) (property_actions (some filters) 1 ps ++ closing) (
        All-append _ (property_actions (some filters) 1 ps) closing
          (property_actions-IsRecorded _ _ 1 ps (ids_of-includes ps)) (tt, ground arith))
    where
      closing : List OutgoingAction
      closing =
          text (teaser_closing_question (length ps))
          ∷ (if asks then text (name_request (lead_seed ctx)) ∷ [] else [])

  trigger_teaser-Records :
      (operation : OperationType) (w : World) → Records (trigger_teaser env ctx operation filters w)
  unfolding trigger_teaser teaser_search
  trigger_teaser-Records operation w = teased-Records _ _ _ w

  prefixed-Records :
      (prefix : Option Text) (ids : List String) (actions : List OutgoingAction)
      → shows_only ids (Qualification.prefix_first prefix actions) ≡ shows_only ids actions
  unfolding Qualification.prefix_first
  prefixed-Records none ids actions = refl
  prefixed-Records (some t) ids [] = refl
  prefixed-Records (some t) ids (text u ∷ actions) = refl
  prefixed-Records (some t) ids (property p i f ∷ actions) = refl

  handle_stocked-Records : (w : World) → Records (Qualification.handle_stocked env ctx filters w)
  unfolding Qualification.handle_stocked
  handle_stocked-Records w =
      let prefix = Qualification.rooms_prefix ctx filters in
      let asks = ask_missing_filter-texts w.lead.last_search_ids prefix in
      elim (Option-cases filters.f_operation) [
        | inl e ↦ ground (arith, e, asks)
        | inr (operation, e) ↦
            let searched = trigger_search env ctx operation filters w in
            ground (
              arith,
              e,
              asks,
              trigger_teaser-Records operation w,
              prefixed-Records prefix searched.1.lead.last_search_ids searched.0.actions,
              trigger_search-Records operation w,
            )
      ]

  pub qualification-Records : (w : World) → Records (Qualification.handle env ctx filters w)
  unfolding Qualification.handle Qualification.suggest_alternative_zones
  qualification-Records w = ground (arith, handle_stocked-Records w)
