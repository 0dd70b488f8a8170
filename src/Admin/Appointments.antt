-- ===== src/Admin/Appointments.antt =====
-- src/admin/appointments/appointments-admin.service.ts and the public page's part of
-- src/appointments/appointments.service.ts. The table of appointments is a list; what other requests
-- do to it between two queries of a method is a function.
pub mod Machine
pub mod Slots
use inmoagent.Prelude.{
  ℕ, ◌+◌, String, Bool, true, false, ◌&&◌, ◌||◌, Option, none, some, List, [], ◌∷◌, if◌then◌else◌,
  str_eq, or_value, or_else, ltb, is_some,
}
use inmoagent.Domain.Lead.{
  Appointment, AppointmentStatus, proposed, confirmed, done, cancelled, no_show,
}

pub data TransitionAction : Type 0 where
  confirm reschedule cancel finish miss : TransitionAction

-- VALID_ORIGINS
unfoldable pub is_valid_origin : TransitionAction → AppointmentStatus → Bool
is_valid_origin confirm proposed = true
is_valid_origin reschedule confirmed = true
is_valid_origin cancel proposed = true
is_valid_origin cancel confirmed = true
is_valid_origin finish confirmed = true
is_valid_origin miss confirmed = true
is_valid_origin _ _ = false

pub data Failure : Type 0 where
  not_found conflict bad_request : Failure

pub data Outcome : Type 0 where
  ok : Appointment → Outcome
  failed : Failure → Outcome

-- What the body of a request may set; `none` where it has no such key. `some none` is an explicit null,
-- which the validators let through; one for `assignedUserId` makes the query throw, and is left out.
pub record Request : Type 0 where
  pub action : TransitionAction
  pub scheduled_at : ℕ
  pub assigned_user_id : Option String
  pub outcome : Option (Option String)
  pub notes : Option (Option String)

abbrev pub is_row : String → String → Appointment → Bool
is_row tenant_id aid a = str_eq a.id aid && str_eq a.tenant_id tenant_id

-- `findFirst({ id, tenantId })`
unfoldable pub find_appointment : String → String → List Appointment → Option Appointment
find_appointment tenant_id aid [] = none
find_appointment tenant_id aid (a ∷ table) =
    let others = find_appointment tenant_id aid table in
    if is_row tenant_id aid a then some a else others

-- The columns that each action writes.
unfoldable pub written : Request → Appointment → Appointment
written request a = elim request.action [
  | confirm ↦ record a {
    status = confirmed;
    scheduled_at = some request.scheduled_at;
    assigned_user_id = or_else request.assigned_user_id a.assigned_user_id;
    notes = or_value request.notes a.notes;
  }
  | reschedule ↦ record a {
    scheduled_at = some request.scheduled_at;
    notes = or_value request.notes a.notes;
  }
  | cancel ↦ record a { status = cancelled; notes = or_value request.notes a.notes }
  | finish ↦ record a {
    status = done;
    outcome = or_value request.outcome a.outcome;
    notes = or_value request.notes a.notes;
  }
  | miss ↦ record a {
    status = no_show;
    outcome = or_value request.outcome a.outcome;
    notes = or_value request.notes a.notes;
  }
]

-- `updateMany` where the id, the tenant and one of the valid states fit: the table, and how many
-- rows were written.
unfoldable pub update_many : String → String → Request → List Appointment → List Appointment × ℕ
unfolding written is_valid_origin
update_many tenant_id aid request [] = ([], 0)
update_many tenant_id aid request (a ∷ table) =
    let (table', count) = update_many tenant_id aid request table in
    if is_row tenant_id aid a && is_valid_origin request.action a.status
    then (written request a ∷ table', count + 1)
    else (a ∷ table', count)

-- Only a confirmation looks at the person that it names.
abbrev pub is_assignable : (String → Bool) → Request → Bool
is_assignable is_person request = elim request.action [
  | confirm ↦ elim request.assigned_user_id [ none ↦ true | some user ↦ is_person user ]
  | _ ↦ true
]

-- `findAppointmentOrThrow`, `assertTransition` and the test of the person.
unfoldable pub checked :
    (String → Bool) → String → String → Request → List Appointment → Option Failure
checked is_person tenant_id aid request table = elim (find_appointment tenant_id aid table) [
  | none ↦ some not_found
  | some a ↦
      if is_valid_origin request.action a.status
      then (if is_assignable is_person request then none else some bad_request)
      else some conflict
]

-- `updateOrThrowConflict`, on the table as it is by then.
unfoldable pub update_or_throw_conflict :
    String → String → Request → List Appointment → Option Failure × List Appointment
unfolding update_many
update_or_throw_conflict tenant_id aid request table =
    let (table', count) = update_many tenant_id aid request table in
    if ltb 0 count then (none, table') else (some conflict, table)

-- A request: `before_update` and `before_answer` are what others do to the table before the update
-- and before the row is read again.
unfoldable pub handle_request :
    (String → Bool)
    → String
    → String
    → Request
    → (List Appointment → List Appointment)
    → (List Appointment → List Appointment)
    → List Appointment
    → Outcome × List Appointment
handle_request is_person tenant_id aid request before_update before_answer table =
    elim (checked is_person tenant_id aid request table) [
      | some e ↦ (failed e, table)
      | none ↦
          let (problem, table₁) =
            update_or_throw_conflict tenant_id aid request (before_update table) in
          elim problem [
            | some e ↦ (failed e, table₁)
            | none ↦
                let table₂ = before_answer table₁ in
                (
                  elim (find_appointment tenant_id aid table₂) [
                    | none ↦ failed not_found
                    | some a ↦ ok a
                  ],
                  table₂,
                )
          ]
    ]

-- Who gets the push of an assignment: after a confirmation, the person of the row.
unfoldable pub assigned_push : Request → Outcome → Option String
assigned_push request (failed e) = none
assigned_push request (ok a) = elim request.action [ confirm ↦ a.assigned_user_id | _ ↦ none ]

abbrev pub is_proposed : AppointmentStatus → Bool
is_proposed proposed = true
is_proposed _ = false

-- `findFirst({ id, status: PROPOSED })`
unfoldable pub find_proposed : String → List Appointment → Option Appointment
find_proposed id [] = none
find_proposed id (a ∷ table) =
    let others = find_proposed id table in
    if str_eq a.id id && is_proposed a.status then some a else others

abbrev pub confirmed_by_client : ℕ → Appointment → Appointment
confirmed_by_client scheduled_at a = record a {
  status = confirmed;
  scheduled_at = some scheduled_at;
  notes = some "Confirmado por el cliente desde la agenda pública";
}

-- `update({ where: { id } })`
unfoldable pub update_by_id : String → ℕ → List Appointment → List Appointment
update_by_id id scheduled_at [] = []
update_by_id id scheduled_at (a ∷ table) =
    let others = update_by_id id scheduled_at table in
    if str_eq a.id id then confirmed_by_client scheduled_at a ∷ table else a ∷ others

-- The table afterwards, or none where it throws before it writes.
unfoldable pub confirm_public :
    String
    → ℕ
    → (List Appointment → List Appointment)
    → List Appointment
    → Option (List Appointment)
confirm_public id scheduled_at before_update table = elim (find_proposed id table) [
  | none ↦ none
  | some a ↦ some (update_by_id id scheduled_at (before_update table))
]
