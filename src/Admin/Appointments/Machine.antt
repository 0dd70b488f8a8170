-- ===== src/Admin/Appointments/Machine.antt =====
-- The requests against the machine of an appointment's states.
use inmoagent.Prelude.{
  ℕ, String, Bool, true, false, ◌≡◌, ◌⊎◌, inl, inr, refl, Option, none, some, List, [], ◌∷◌, arith,
  str_eq, ltb, Bool-cases, Option-cases, ◌&&◌, if◌then◌else◌,
}
use inmoagent.Domain.Lead.{
  Appointment, AppointmentStatus, proposed, confirmed, done, cancelled, no_show,
}
use inmoagent.Admin.Appointments.{
  TransitionAction, confirm, reschedule, cancel, finish, miss, is_valid_origin, Failure, not_found,
  conflict, Outcome, ok, failed, Request, is_row, find_appointment, written, update_many, checked,
  update_or_throw_conflict, handle_request, find_proposed, update_by_id, confirm_public,
  confirmed_by_client,
}

-- The machine: three states are final.
pub data Move : AppointmentStatus → AppointmentStatus → Type 0 where
  confirms : Move proposed confirmed
  reschedules : Move confirmed confirmed
  withdraws : Move proposed cancelled
  cancels : Move confirmed cancelled
  finishes : Move confirmed done
  misses : Move confirmed no_show

-- A row is as it was, or is the one that the request names, and made a move of the machine.
abbrev pub Moved : String → String → Appointment → Appointment → Type 0
Moved tenant_id aid a b =
    (b ≡ a)
    ⊎ ((is_row tenant_id aid a ≡ true)
        × Move a.status b.status
        × (b.id ≡ a.id)
        × (b.tenant_id ≡ a.tenant_id)
        × (b.lead_id ≡ a.lead_id)
        × (b.property_id ≡ a.property_id))

abbrev pub Rowwise :
    (Appointment → Appointment → Type 0) → List Appointment → List Appointment → Type 0
Rowwise P [] [] = Unit
Rowwise P (a ∷ table) (b ∷ after) = P a b × Rowwise P table after
Rowwise P [] (b ∷ after) = ⊥
Rowwise P (a ∷ table) [] = ⊥

written-Move :
    (request : Request) (action : TransitionAction) (status : AppointmentStatus) (a : Appointment)
    → request.action ≡ action
    → a.status ≡ status
    → is_valid_origin action status ≡ true
    → Move status (written request a).status
unfolding written is_valid_origin
written-Move request confirm proposed a e s h = rw e confirms
written-Move request reschedule confirmed a e s h = rw e (rw s reschedules)
written-Move request cancel proposed a e s h = rw e withdraws
written-Move request cancel confirmed a e s h = rw e cancels
written-Move request finish confirmed a e s h = rw e finishes
written-Move request miss confirmed a e s h = rw e misses
written-Move request confirm confirmed a e s h = absurd (cc h)
written-Move request _ _ a e s h = absurd (cc h)

written-keeps :
    (request : Request) (a : Appointment)
    → ((written request a).id ≡ a.id)
      × ((written request a).tenant_id ≡ a.tenant_id)
      × ((written request a).lead_id ≡ a.lead_id)
      × ((written request a).property_id ≡ a.property_id)
unfolding written
written-keeps request a = ground arith

both_true : (a b : Bool) → (a && b) ≡ true → (a ≡ true) × (b ≡ true)
both_true true b h = (refl, h)
both_true false b h = absurd (cc h)

update_many-Moved :
    (tenant_id aid : String) (request : Request) (table : List Appointment)
    → Rowwise (Moved tenant_id aid) table (update_many tenant_id aid request table).0
unfolding update_many
update_many-Moved tenant_id aid request [] = tt
update_many-Moved tenant_id aid request (a ∷ table) =
    elim (Bool-cases (is_row tenant_id aid a && is_valid_origin request.action a.status)) [
      | inl e ↦
          let (row, origin) =
            both_true (is_row tenant_id aid a) (is_valid_origin request.action a.status) e in
          let (same_id, same_tenant, same_lead, same_property) = written-keeps request a in
          rw e (
            inr (
              row,
              written-Move request request.action a.status a refl refl origin,
              same_id,
              same_tenant,
              same_lead,
              same_property,
            ),
            update_many-Moved tenant_id aid request table,
          )
      | inr e ↦ rw e (inl refl, update_many-Moved tenant_id aid request table)
    ]

abbrev pub Others : Type 0
Others = List Appointment → List Appointment

-- What a request may do. It answers with the row as it is in the end, the machine's move made on the
-- table as it was at the update; or with an error and no write; or, where others delete the row after
-- the move, with an error.
abbrev pub Refines :
    String → String → Others → Others → List Appointment → Outcome × List Appointment → Type 0
Refines tenant_id aid before_update before_answer table (ok a, after) =
    (moved : List Appointment) × Rowwise (Moved tenant_id aid) (before_update table) moved
    × (after ≡ before_answer moved)
    × (find_appointment tenant_id aid after ≡ some a)
Refines tenant_id aid before_update before_answer table (failed e, after) =
    (after ≡ table)
    ⊎ ((after ≡ before_update table)
        ⊎ ((moved : List Appointment) × Rowwise (Moved tenant_id aid) (before_update table) moved
            × (after ≡ before_answer moved)
            × (find_appointment tenant_id aid after ≡ none)))

module _ (is_person : String → Bool) (tenant_id aid : String) (request : Request)
    (before_update before_answer : Others) where
  answered :
      (table moved : List Appointment)
      → Rowwise (Moved tenant_id aid) (before_update table) moved
      → Refines tenant_id aid before_update before_answer table (
        (elim (find_appointment tenant_id aid (before_answer moved)) [
          | none ↦ failed not_found
          | some a ↦ ok a
        ]),
        before_answer moved,
      )
  answered table moved h =
      elim (Option-cases (find_appointment tenant_id aid (before_answer moved))) [
        | inl e ↦ rw e (inr (inr (moved, h, refl, e)))
        | inr (a, e) ↦ rw e (moved, h, refl, e)
      ]

  request_refused :
      (table : List Appointment) (e : Failure)
      → checked is_person tenant_id aid request table ≡ some e
      → handle_request is_person tenant_id aid request before_update before_answer table
        ≡ (failed e, table)
  unfolding handle_request
  request_refused table e q = ground (arith, q)

  request_late :
      (table : List Appointment)
      → checked is_person tenant_id aid request table ≡ none
      → ltb 0 (update_many tenant_id aid request (before_update table)).1 ≡ false
      → handle_request is_person tenant_id aid request before_update before_answer table
        ≡ (failed conflict, before_update table)
  unfolding handle_request update_or_throw_conflict
  request_late table q e = ground (arith, q, e)

  request_done :
      (table : List Appointment)
      → checked is_person tenant_id aid request table ≡ none
      → ltb 0 (update_many tenant_id aid request (before_update table)).1 ≡ true
      → let after = before_answer (update_many tenant_id aid request (before_update table)).0 in
        handle_request is_person tenant_id aid request before_update before_answer table ≡ (
          (elim (find_appointment tenant_id aid after) [ none ↦ failed not_found | some a ↦ ok a ]),
          after,
        )
  unfolding handle_request update_or_throw_conflict
  request_done table q e = ground (arith, q, e)

  -- Whatever other requests do to the table before a request's update and after it, the request
  -- makes at most one move of the machine, on the row that it names and from the state that this
  -- row has at the update, and leaves every other row alone; an error means that nothing was
  -- written, unless others deleted the row after the move.
  pub handle_request-Refines :
      (table : List Appointment)
      → Refines tenant_id aid before_update before_answer table
          (handle_request is_person tenant_id aid request before_update before_answer table)
  handle_request-Refines table =
      elim (Option-cases (checked is_person tenant_id aid request table)) [
        | inr (e, q) ↦ rw (request_refused table e q) (inl refl)
        | inl q ↦
            elim (Bool-cases (ltb 0 (update_many tenant_id aid request (before_update table)).1)) [
              | inl some_row ↦ rw (request_done table q some_row) (
                  answered table (update_many tenant_id aid request (before_update table)).0
                    (update_many-Moved tenant_id aid request (before_update table)))
              | inr no_row ↦ rw (request_late table q no_row) (inr (inl refl))
            ]
      ]

abbrev pub find_by_id : String → List Appointment → Option Appointment
find_by_id id [] = none
find_by_id id (a ∷ table) = if str_eq a.id id then some a else find_by_id id table

update_by_id-confirms :
    (id : String) (scheduled_at : ℕ) (table : List Appointment)
    → (a : Appointment) → find_by_id id table ≡ some a
    → find_by_id id (update_by_id id scheduled_at table) ≡ some (confirmed_by_client scheduled_at a)
unfolding update_by_id
update_by_id-confirms id scheduled_at [] a h = absurd (cc h)
update_by_id-confirms id scheduled_at (x ∷ table) a h = elim (Bool-cases (str_eq x.id id)) [
  | inl e ↦ ground (arith, e)
  | inr e ↦ rw (e, e) (update_by_id-confirms id scheduled_at table a (rw e at h))
]

-- The public page's confirmation makes no move of the machine: if the appointment is proposed when
-- it is read, then it is confirmed by the update whatever its state is by then, for instance
-- cancelled by the agency in between.
pub confirm_public-overrides :
    (id : String) (scheduled_at : ℕ) (before_update : Others) (table : List Appointment)
    (p a : Appointment)
    → find_proposed id table ≡ some p
    → find_by_id id (before_update table) ≡ some a
    → (after : List Appointment) × (confirm_public id scheduled_at before_update table ≡ some after)
      × (find_by_id id after
          ≡ some (record a {
            status = confirmed;
            scheduled_at = some scheduled_at;
            notes = some "Confirmado por el cliente desde la agenda pública";
          }))
unfolding confirm_public
confirm_public-overrides id scheduled_at before_update table p a seen there = (
  update_by_id id scheduled_at (before_update table),
  ground (arith, seen),
  update_by_id-confirms id scheduled_at (before_update table) a there,
)
