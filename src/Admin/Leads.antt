-- ===== src/Admin/Leads.antt =====
-- src/admin/leads/admin-leads.service.ts: what the panel does to one lead. A request of a tenant names a
-- lead by its id; the statements of a transaction are one step.
pub mod Isolated
use inmoagent.Prelude.{
  ℕ, ◌+◌, String, Bool, true, false, not, ◌&&◌, ◌||◌, Option, none, some, List, [], ◌∷◌, ◌++◌,
  if◌then◌else◌, str_eq, trim, ltb,
}
use inmoagent.Domain.Lead.{
  Lead, ConversationState, human_handoff, opted_out, is_human_handoff, is_opted_out,
}
use inmoagent.Conversation.Release.{resolve_release_state}

-- A lead's row with the columns that only the panel writes.
pub record LeadRow : Type 0 where
  pub lead : Lead
  pub contacted_at : Option ℕ
  pub next_action_at : Option ℕ
  pub assigned_user_id : Option String

pub record Note : Type 0 where
  pub tenant_id : String
  pub lead_id : String
  pub author_person_id : Option String
  pub body : List ℕ

-- `people` are the ids and the tenants of the people.
pub record Panel : Type 0 where
  pub leads : List LeadRow
  pub notes : List Note
  pub people : List (String × String)

-- What the body of a PATCH has in a field: nothing, null, or a value.
pub data Field {ℓ} (A : Type ℓ) : Type ℓ where
  missing cleared : Field A
  given : A → Field A

pub data Action : Type 0 where
  create_note : Option String → List ℕ → Action
  mark_contacted mark_uncontacted opt_out release : Action
  patch_assignment : Field String → Field ℕ → Action

pub data Answer : Type 0 where
  not_found bad_request released noted : Answer
  updated : LeadRow → Answer

abbrev pub is_row : String → String → LeadRow → Bool
is_row tenant_id lead_id r = str_eq r.lead.id lead_id && str_eq r.lead.tenant_id tenant_id

-- `findLeadOrThrow`
unfoldable pub find_lead : String → String → List LeadRow → Option LeadRow
find_lead tenant_id lead_id [] = none
find_lead tenant_id lead_id (r ∷ leads) =
    if is_row tenant_id lead_id r then some r else find_lead tenant_id lead_id leads

-- `update({ where: { id } })`, and `updateMany` with a condition on the row.
unfoldable pub update_leads : (LeadRow → Bool) → (LeadRow → LeadRow) → List LeadRow → List LeadRow
update_leads where_row change [] = []
update_leads where_row change (r ∷ leads) =
    (if where_row r then change r else r) ∷ update_leads where_row change leads

unfoldable pub count_leads : (LeadRow → Bool) → List LeadRow → ℕ
count_leads where_row [] = 0
count_leads where_row (r ∷ leads) = (if where_row r then 1 else 0) + count_leads where_row leads

abbrev pub by_id : String → LeadRow → Bool
by_id lead_id r = str_eq r.lead.id lead_id

abbrev pub contacted : Option ℕ → LeadRow → LeadRow
contacted at r = record r { contacted_at = at }

abbrev pub with_state : ConversationState → LeadRow → LeadRow
with_state state r = record r { lead = record (r.lead) { state = state; handoff_at = none } }

abbrev pub opted_out_row : ℕ → LeadRow → LeadRow
opted_out_row now r = record r {
  lead = record (r.lead) { state = opted_out; opted_out_at = some now };
}

unfoldable pub is_person_of : String → String → List (String × String) → Bool
is_person_of tenant_id id [] = false
is_person_of tenant_id id ((p, t) ∷ people) =
    (str_eq p id && str_eq t tenant_id) || is_person_of tenant_id id people

abbrev pub assigned : Field String → LeadRow → LeadRow
assigned missing r = r
assigned cleared r = record r { assigned_user_id = none }
assigned (given id) r = record r { assigned_user_id = some id }

abbrev pub planned : Field ℕ → LeadRow → LeadRow
planned missing r = r
planned cleared r = record r { next_action_at = none }
planned (given at) r = record r { next_action_at = some at }

-- The test of the person who is to be assigned.
abbrev pub is_assignable : String → List (String × String) → Field String → Bool
unfolding is_person_of
is_assignable tenant_id people missing = true
is_assignable tenant_id people cleared = true
is_assignable tenant_id people (given id) = is_person_of tenant_id id people

-- The row afterwards: `update` gives the row that it wrote, and throws where there is none.
unfoldable pub answer_update : String → String → Panel → Answer × Panel
unfolding find_lead
answer_update tenant_id lead_id p = elim (find_lead tenant_id lead_id p.leads) [
  | none ↦ (not_found, p)
  | some r ↦ (updated r, p)
]

abbrev pub updated_panel : (LeadRow → Bool) → (LeadRow → LeadRow) → Panel → Panel
updated_panel where_row change p = record p { leads = update_leads where_row change p.leads }

abbrev pub still_in_contact : String → String → LeadRow → Bool
still_in_contact tenant_id lead_id r = is_row tenant_id lead_id r && not (is_opted_out r.lead.state)

abbrev pub handed_over : String → String → LeadRow → Bool
handed_over tenant_id lead_id r = is_row tenant_id lead_id r && is_human_handoff r.lead.state

module _ (now : ℕ) (tenant_id lead_id : String) where
  -- What an action does to the lead that was found.
  unfoldable pub act : Action → LeadRow → Panel → Answer × Panel
  unfolding update_leads count_leads answer_update is_person_of
  act (create_note author body) found p = (
    noted,
    record p {
      notes =
          p.notes
          ++ (record {
            tenant_id = tenant_id;
            lead_id = lead_id;
            author_person_id = author;
            body = trim body;
          })
            ∷ [];
    },
  )
  act mark_contacted found p =
      answer_update tenant_id lead_id (updated_panel (by_id lead_id) (contacted (some now)) p)
  act mark_uncontacted found p =
      answer_update tenant_id lead_id (updated_panel (by_id lead_id) (contacted none) p)
  act opt_out found p =
      answer_update tenant_id lead_id
        (updated_panel (still_in_contact tenant_id lead_id) (opted_out_row now) p)
  act release found p =
      if ltb 0 (count_leads (handed_over tenant_id lead_id) p.leads)
      then (
        released,
        updated_panel (handed_over tenant_id lead_id)
            (with_state (resolve_release_state found.lead)) p,
      )
      else (bad_request, p)
  act (patch_assignment person at) found p =
      if is_assignable tenant_id p.people person
      then answer_update tenant_id lead_id
          (updated_panel (by_id lead_id) (λ r. planned at (assigned person r)) p)
      else (bad_request, p)

  unfoldable pub handle_lead_action : Action → Panel → Answer × Panel
  unfolding find_lead act
  handle_lead_action action p = elim (find_lead tenant_id lead_id p.leads) [
    | none ↦ (not_found, p)
    | some found ↦ act action found p
  ]
