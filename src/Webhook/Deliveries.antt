-- ===== src/Webhook/Deliveries.antt =====
-- Any deliveries, one after the other: what each message and each status preserves, they preserve.
use inmoagent.Prelude.{
  ℕ, String, ◌≡◌, refl, ◌⊎◌, inl, inr, Option, none, some, List, [], ◌∷◌, arith, Bool-cases,
  Option-cases, str_eq,
}
use inmoagent.Webhook.Store.{
  Tenant, MessageRow, Status, Db, Thrown, ok, thrown, find_message, set_last_status, with_status,
  find_by_phone_number_id,
}
use inmoagent.Webhook.{
  MetaMessage, Value, mark, handle_message, handle_status, handle_statuses, handle_messages,
  handle_items, with_found, handle_change, handle_payload,
}
use inmoagent.Webhook.Steps.{Handled, handle_message-Handled}

-- Payloads, each with the time of its delivery.
unfoldable pub handle_payloads : List (ℕ × List Value) → Db → Db
handle_payloads [] db = db
handle_payloads ((now, values) ∷ payloads) db =
    handle_payloads payloads (handle_payload now values db)

-- Of the rows and jobs, at most the status of messages changes.
pub data Marked (a b : Db) : Type 0 where
  unmarked : b.events ≡ a.events → b.messages ≡ a.messages → b.jobs ≡ a.jobs → Marked a b
  marked :
      (id : String) (status : Status)
      → b.events ≡ a.events
      → b.messages ≡ with_status id status a.messages
      → b.jobs ≡ a.jobs
      → Marked a b

set_last_status-keeps :
    (id : String) (status : Status) (db : Db)
    → ((set_last_status id status db).1.events ≡ db.events)
      × ((set_last_status id status db).1.jobs ≡ db.jobs)
unfolding set_last_status
set_last_status-keeps id status db = ground arith

set_last_status-marks :
    (id : String) (status : Status) (db : Db)
    → ((set_last_status id status db).1.messages ≡ db.messages)
      ⊎ ((set_last_status id status db).1.messages ≡ with_status id status db.messages)
unfolding set_last_status
set_last_status-marks id status db = ground arith

set_last_status-Marked :
    (id : String) (status : Status) (db : Db) → Marked db (set_last_status id status db).1
set_last_status-Marked id status db =
    let (events, jobs) = set_last_status-keeps id status db in
    elim (set_last_status-marks id status db) [
      | inl same ↦ unmarked events same jobs
      | inr changed ↦ marked id status events changed jobs
    ]

find_message-same :
    (w : String) (db : Db)
    → ((find_message w db).1.events ≡ db.events)
      × ((find_message w db).1.messages ≡ db.messages)
      × ((find_message w db).1.jobs ≡ db.jobs)
unfolding find_message
find_message-same w db = ground arith

find_tenant-same :
    (n : String) (db : Db)
    → ((find_by_phone_number_id n db).1.events ≡ db.events)
      × ((find_by_phone_number_id n db).1.messages ≡ db.messages)
      × ((find_by_phone_number_id n db).1.jobs ≡ db.jobs)
unfolding find_by_phone_number_id
find_tenant-same n db = ground arith

mark-Marked :
    (tenant : Tenant) (status : Status) (found : Option MessageRow) (db : Db)
    → Marked db (mark tenant status found db).1
unfolding mark
mark-Marked tenant status none db = unmarked refl refl refl
mark-Marked tenant status (some m) db = elim (Bool-cases (str_eq m.tenant_id tenant.id)) [
  | inl e ↦ rw e (set_last_status-Marked m.id status db)
  | inr e ↦ rw e (unmarked refl refl refl)
]

module _ (tenant : Tenant) (status : Status) where
  mark_found : Thrown (Option MessageRow) × Db → Db
  mark_found (ok found, db) = (mark tenant status found db).1
  mark_found (thrown e, db) = db

  handle_status-eq :
      (db : Db) → (handle_status tenant status db).1 ≡ mark_found (find_message status.id db)
  unfolding handle_status mark_found
  handle_status-eq db = ground arith

-- In the section, what a message and a status preserve.
module _ (P : Db → Type 0) (on_message : (w : String) (a b : Db) → Handled w a b → P a → P b)
    (on_status : (a b : Db) → Marked a b → P a → P b) where
  mark_found-closed :
      (tenant : Tenant) (status : Status) (r : Thrown (Option MessageRow) × Db)
      → P r.1
      → P (mark_found tenant status r)
  unfolding mark_found
  mark_found-closed tenant status (thrown e, db) h = h
  mark_found-closed tenant status (ok found, db) h =
      on_status db (mark tenant status found db).1 (mark-Marked tenant status found db) h

  handle_status-closed :
      (tenant : Tenant) (status : Status) (db : Db) → P db → P (handle_status tenant status db).1
  handle_status-closed tenant status db h =
      let r = find_message status.id db in
      let (events, messages, jobs) = find_message-same status.id db in
      rw (handle_status-eq tenant status db)
        (mark_found-closed tenant status r (on_status db r.1 (unmarked events messages jobs) h))

  handle_statuses-closed :
      (tenant : Tenant) (statuses : List Status) (db : Db)
      → P db
      → P (handle_statuses tenant statuses db)
  unfolding handle_statuses
  handle_statuses-closed tenant [] db h = h
  handle_statuses-closed tenant (status ∷ statuses) db h =
      handle_statuses-closed tenant statuses (handle_status tenant status db).1
        (handle_status-closed tenant status db h)

  handle_messages-closed :
      (now : ℕ) (tenant : Tenant) (messages : List MetaMessage) (db : Db)
      → P db
      → P (handle_messages now tenant messages db)
  unfolding handle_messages
  handle_messages-closed now tenant [] db h = h
  handle_messages-closed now tenant (message ∷ messages) db h =
      let after = (handle_message now tenant message db).1 in
      handle_messages-closed now tenant messages after
        (on_message message.id db after (handle_message-Handled now tenant message db) h)

  with_found-closed :
      (now : ℕ) (value : Value) (r : Thrown (Option Tenant) × Db)
      → P r.1
      → P (with_found now value r)
  unfolding with_found handle_items
  with_found-closed now value (thrown e, db) h = h
  with_found-closed now value (ok none, db) h = h
  with_found-closed now value (ok (some tenant), db) h =
      handle_messages-closed now tenant value.messages (handle_statuses tenant value.statuses db)
        (handle_statuses-closed tenant value.statuses db h)

  handle_change-closed : (now : ℕ) (value : Value) (db : Db) → P db → P (handle_change now value db)
  unfolding handle_change
  handle_change-closed now value db h = elim (Option-cases value.phone_number_id) [
    | inl e ↦ rw e h
    | inr (n, e) ↦ elim (Bool-cases (str_eq n "")) [
      | inl e' ↦ rw (e, e') h
      | inr e' ↦
          let r = find_by_phone_number_id n db in
          let (events, messages, jobs) = find_tenant-same n db in
          rw (e, e')
            (with_found-closed now value r (on_status db r.1 (unmarked events messages jobs) h))
    ]
  ]

  handle_payload-closed :
      (now : ℕ) (values : List Value) (db : Db) → P db → P (handle_payload now values db)
  unfolding handle_payload
  handle_payload-closed now [] db h = h
  handle_payload-closed now (value ∷ values) db h =
      handle_payload-closed now values (handle_change now value db)
        (handle_change-closed now value db h)

  pub handle_payloads-closed :
      (payloads : List (ℕ × List Value)) (db : Db) → P db → P (handle_payloads payloads db)
  unfolding handle_payloads
  handle_payloads-closed [] db h = h
  handle_payloads-closed ((now, values) ∷ payloads) db h =
      handle_payloads-closed payloads (handle_payload now values db)
        (handle_payload-closed now values db h)
