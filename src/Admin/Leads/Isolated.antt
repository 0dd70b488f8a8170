-- ===== src/Admin/Leads/Isolated.antt =====
-- What a request of a tenant may change in the table of leads.
use inmoagent.Prelude.{
  ℕ, String, Bool, true, false, ◌||◌, ◌≡◌, refl, sym, ◌∙◌, ap, ◌⊎◌, inl, inr, none, some, List, [],
  ◌∷◌, All, All-weaken, arith, Bool-cases, Option-cases, str_eq, eq_iff, ltb, subst,
}
use inmoagent.Domain.Lead.{is_human_handoff, is_opted_out}
use inmoagent.Conversation.Release.{resolve_release_state}
use inmoagent.Admin.Leads.{
  LeadRow, Panel, Field, Action, create_note, mark_contacted, mark_uncontacted, opt_out, release,
  given, cleared, missing, patch_assignment, is_row, find_lead, update_leads, count_leads, by_id,
  contacted, with_state, opted_out_row, is_assignable, assigned, planned, answer_update,
  updated_panel, still_in_contact, handed_over, act, handle_lead_action,
}

abbrev pub has_lead_id : String → List LeadRow → Bool
has_lead_id id [] = false
has_lead_id id (r ∷ leads) = by_id id r || has_lead_id id leads

abbrev pub HasDistinctIds : List LeadRow → Type 0
HasDistinctIds [] = Unit
HasDistinctIds (r ∷ leads) = (has_lead_id r.lead.id leads ≡ false) × HasDistinctIds leads

-- A change of the columns that only the panel writes; an opt-out of a lead that had not opted out; or
-- a release, from the handoff to the state that the conversation goes on in.
pub data Move (now : ℕ) (a b : LeadRow) : Type 0 where
  edits : b.lead ≡ a.lead → Move now a b
  opts_out : is_opted_out a.lead.state ≡ false → b ≡ opted_out_row now a → Move now a b
  releases :
      is_human_handoff a.lead.state ≡ true
      → b ≡ with_state (resolve_release_state a.lead) a
      → Move now a b

-- A row is as it was, or it is the tenant's row of that id, and made a move.
abbrev pub Moved : ℕ → String → String → LeadRow → LeadRow → Type 0
Moved now tenant_id lead_id a b = (b ≡ a) ⊎ ((is_row tenant_id lead_id a ≡ true) × Move now a b)

abbrev pub Rowwise : (LeadRow → LeadRow → Type 0) → List LeadRow → List LeadRow → Type 0
Rowwise P [] [] = Unit
Rowwise P (a ∷ leads) (b ∷ after) = P a b × Rowwise P leads after
Rowwise P [] (b ∷ after) = ⊥
Rowwise P (a ∷ leads) [] = ⊥

no_id :
    (id : String) (found : LeadRow) (leads : List LeadRow)
    → has_lead_id id leads ≡ false
    → All (λ (r : LeadRow). by_id id r ≡ true → r ≡ found) leads
no_id id found [] h = tt
no_id id found (r ∷ leads) h =
    (λ e. absurd (ground (arith, h, e)), no_id id found leads (ground (arith, h)))

find-absent :
    (tenant_id id : String) (leads : List LeadRow)
    → has_lead_id id leads ≡ false
    → find_lead tenant_id id leads ≡ none
unfolding find_lead
find-absent tenant_id id [] h = refl
find-absent tenant_id id (r ∷ leads) h = ground (arith, h, find-absent tenant_id id leads)

find-is_row :
    (tenant_id id : String) (leads : List LeadRow) (found : LeadRow)
    → find_lead tenant_id id leads ≡ some found
    → is_row tenant_id id found ≡ true
unfolding find_lead
find-is_row tenant_id id [] found h = absurd (cc h)
find-is_row tenant_id id (r ∷ leads) found h =
    ground (arith, h, find-is_row tenant_id id leads found)

-- The only row of the id is the one that the tenant's query finds.
only_found :
    (tenant_id id : String) (leads : List LeadRow) (found : LeadRow)
    → HasDistinctIds leads
    → find_lead tenant_id id leads ≡ some found
    → All (λ (r : LeadRow). by_id id r ≡ true → r ≡ found) leads
unfolding find_lead
only_found tenant_id id [] found d h = tt
only_found tenant_id id (r ∷ leads) found d h = elim (Bool-cases (str_eq r.lead.id id)) [
  | inl e ↦
      let absent : has_lead_id id leads ≡ false =
        ap (λ (i : String). has_lead_id i leads) (sym ((eq_iff r.lead.id id).0 e)) ∙ d.0 in
      (
        λ same. ground (arith, e, h, find-absent tenant_id id leads absent),
        no_id id found leads absent,
      )
  | inr e ↦ (
    λ same. absurd (cc (e, same)),
    only_found tenant_id id leads found d.1 (ground (arith, e, h)),
  )
]

update-Rowwise :
    (P : LeadRow → LeadRow → Type 0) (where_row : LeadRow → Bool) (change : LeadRow → LeadRow)
    → ((r : LeadRow) → P r r)
    → (leads : List LeadRow) → All (λ (r : LeadRow). where_row r ≡ true → P r (change r)) leads
    → Rowwise P leads (update_leads where_row change leads)
unfolding update_leads
update-Rowwise P where_row change same [] h = tt
update-Rowwise P where_row change same (r ∷ leads) h = elim (Bool-cases (where_row r)) [
  | inl e ↦ rw e (h.0 e, update-Rowwise P where_row change same leads h.1)
  | inr e ↦ rw e (same r, update-Rowwise P where_row change same leads h.1)
]

Rowwise-same :
    (P : LeadRow → LeadRow → Type 0)
    → ((r : LeadRow) → P r r)
    → (leads : List LeadRow) → Rowwise P leads leads
Rowwise-same P same [] = tt
Rowwise-same P same (r ∷ leads) = (same r, Rowwise-same P same leads)

answer_update-leads :
    (tenant_id lead_id : String) (p : Panel) → (answer_update tenant_id lead_id p).1 ≡ p
unfolding answer_update
answer_update-leads tenant_id lead_id p = ground arith

module _ (now : ℕ) (tenant_id lead_id : String) (found : LeadRow) (p : Panel)
    (distinct : HasDistinctIds p.leads)
    (is_found : find_lead tenant_id lead_id p.leads ≡ some found) where
  abbrev M : LeadRow → LeadRow → Type 0
  M = Moved now tenant_id lead_id

  -- An update of rows of the id, each of which makes a move.
  moves :
      (where_row : LeadRow → Bool) (change : LeadRow → LeadRow)
      → ((r : LeadRow) → where_row r ≡ true → by_id lead_id r ≡ true)
      → (where_row found ≡ true → Move now found (change found))
      → Rowwise M p.leads (update_leads where_row change p.leads)
  moves where_row change of_id move =
      update-Rowwise M where_row change (λ r. inl refl) p.leads
        (All-weaken {P = λ (r : LeadRow). by_id lead_id r ≡ true → r ≡ found}
          (λ r only here.
            let it : r ≡ found = only (of_id r here) in
            subst (λ (x : LeadRow). where_row x ≡ true → M x (change x)) (sym it)
              (λ there. inr (find-is_row tenant_id lead_id p.leads found is_found, move there))
              here)
          p.leads (only_found tenant_id lead_id p.leads found distinct is_found))

  answered :
      (where_row : LeadRow → Bool) (change : LeadRow → LeadRow)
      → Rowwise M p.leads (update_leads where_row change p.leads)
      → Rowwise M p.leads
          (answer_update tenant_id lead_id (updated_panel where_row change p)).1.leads
  answered where_row change h =
      subst (λ (q : Panel). Rowwise M p.leads q.leads)
        (sym (answer_update-leads tenant_id lead_id (updated_panel where_row change p))) h

  -- An update of one row by its id, which changes the panel's columns only.
  edited :
      (change : LeadRow → LeadRow)
      → ((r : LeadRow) → (change r).lead ≡ r.lead)
      → Rowwise M p.leads
          (answer_update tenant_id lead_id (updated_panel (by_id lead_id) change p)).1.leads
  edited change keeps =
      answered (by_id lead_id) change
        (moves (by_id lead_id) change (λ r h. h) (λ h. edits (keeps found)))

  planned-lead :
      (person : Field String) (at : Field ℕ) (r : LeadRow)
      → (planned at (assigned person r)).lead ≡ r.lead
  planned-lead missing missing r = refl
  planned-lead missing cleared r = refl
  planned-lead missing (given at) r = refl
  planned-lead cleared missing r = refl
  planned-lead cleared cleared r = refl
  planned-lead cleared (given at) r = refl
  planned-lead (given id) missing r = refl
  planned-lead (given id) cleared r = refl
  planned-lead (given id) (given at) r = refl

  released_rows : Rowwise M p.leads (
      update_leads
        (handed_over tenant_id lead_id)
        (with_state (resolve_release_state found.lead))
        p.leads)
  released_rows =
      moves (handed_over tenant_id lead_id) (with_state (resolve_release_state found.lead))
        (λ r h. ground (arith, h)) (λ h. releases (ground (arith, h)) refl)

  act-Moved :
      (action : Action) → Rowwise M p.leads (act now tenant_id lead_id action found p).1.leads
  unfolding act
  act-Moved (create_note author body) = Rowwise-same M (λ r. inl refl) p.leads
  act-Moved mark_contacted = edited (contacted (some now)) (λ r. refl)
  act-Moved mark_uncontacted = edited (contacted none) (λ r. refl)
  act-Moved opt_out = answered (still_in_contact tenant_id lead_id) (opted_out_row now) (
      moves (still_in_contact tenant_id lead_id) (opted_out_row now) (λ r h. ground (arith, h))
        (λ h. opts_out (ground (arith, h)) refl))
  act-Moved release =
      elim (Bool-cases (ltb 0 (count_leads (handed_over tenant_id lead_id) p.leads))) [
        | inl e ↦ rw e released_rows
        | inr e ↦ rw e (Rowwise-same M (λ r. inl refl) p.leads)
      ]
  act-Moved (patch_assignment person at) =
      elim (Bool-cases (is_assignable tenant_id p.people person)) [
        | inl e ↦ rw e (edited (λ r. planned at (assigned person r)) (planned-lead person at))
        | inr e ↦ rw e (Rowwise-same M (λ r. inl refl) p.leads)
      ]

module _ (now : ℕ) (tenant_id lead_id : String) (action : Action) (p : Panel) where
  unknown_lead :
      find_lead tenant_id lead_id p.leads ≡ none
      → (handle_lead_action now tenant_id lead_id action p).1 ≡ p
  unfolding handle_lead_action
  unknown_lead h = ground (arith, h)

  known_lead :
      (found : LeadRow)
      → find_lead tenant_id lead_id p.leads ≡ some found
      → handle_lead_action now tenant_id lead_id action p ≡ act now tenant_id lead_id action found p
  unfolding handle_lead_action
  known_lead found h = ground (arith, h)

-- Whatever a request of a tenant asks for, it changes at most the tenant's own lead of the id that it
-- names, in a table of distinct ids: the columns that only the panel writes, or the state by an opt-out
-- of a lead that had not opted out, or by the release of one that is handed over; every other row, and
-- so every row of another tenant, stays as it is.
pub handle_lead_action-Moved :
    (now : ℕ) (tenant_id lead_id : String) (action : Action) (p : Panel)
    → HasDistinctIds p.leads
    → Rowwise
        (Moved now tenant_id lead_id)
        p.leads
        (handle_lead_action now tenant_id lead_id action p).1.leads
handle_lead_action-Moved now tenant_id lead_id action p distinct =
    elim (Option-cases (find_lead tenant_id lead_id p.leads)) [
      | inl e ↦
          rw (unknown_lead now tenant_id lead_id action p e)
            (Rowwise-same (Moved now tenant_id lead_id) (λ r. inl refl) p.leads)
      | inr (found, e) ↦
          rw (known_lead now tenant_id lead_id action p found e)
            (act-Moved now tenant_id lead_id found p distinct e action)
    ]
