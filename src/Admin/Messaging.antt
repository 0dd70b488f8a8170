-- ===== src/Admin/Messaging.antt =====
-- src/admin/leads/admin-lead-messaging.service.ts and service-window.util.ts: a message that a person
-- writes to a lead.
pub mod Effects
use inmoagent.Prelude.{
  ℕ, ◌+◌, ◌*◌, String, Bool, true, false, not, Option, none, some, List, [], ◌∷◌, ◌++◌, ltb,
  if◌then◌else◌, str_eq, filter, ◌≡◌, ◌≢◌, ◌⊎◌, inl, inr, refl, All, arith, Bool-cases,
  Option-cases, ap, ◌∙◌, sym,
}
use mathlib.Core.List.{append-nil}
use inmoagent.Domain.Lead.{Lead, Tenant, human_handoff, opted_out, is_opted_out}
use inmoagent.Pipeline.Store.{Store, Services, IsDocumented}
use inmoagent.Pipeline.Debounce.{with_lead_lock, acquire_lock, release_lock}

abbrev pub service_window_ms : ℕ
service_window_ms = 24 * 60 * 60 * 1000

-- `now - lastInboundAt < SERVICE_WINDOW_MS` on integers
unfoldable pub is_service_window_open : Option ℕ → ℕ → Bool
is_service_window_open none now = false
is_service_window_open (some at) now = ltb now (at + service_window_ms)

-- An outgoing message of a person.
pub record ManualMessage : Type 0 where
  pub id : String
  pub body : List ℕ
  pub sent_by_person_id : String

-- A job of the queue of outgoing messages, with the id of the stored message.
pub record Job : Type 0 where
  pub phone : String
  pub body : List ℕ
  pub message_id : String

-- The lead's row, if the tenant has it, the messages to the lead, and the jobs.
pub record Desk : Type 0 where
  pub lead : Option Lead
  pub messages : List ManualMessage
  pub jobs : List Job

pub data Refusal : Type 0 where
  lead_not_found lead_opted_out service_window_closed tenant_not_found lead_locked bad_gateway :
      Refusal

pub data SendResult : Type 0 where
  sent : ManualMessage → Lead → SendResult
  refused : Refusal → SendResult

-- A request, and what it meets: the tenant, the lead's last incoming message, the time, the new
-- row's id, whether the job is queued, whether a failed one's message is deleted, and what others do
-- to the desk before the transaction.
pub record Send : Type 0 where
  pub person_id : String
  pub text : List ℕ
  pub tenant : Option Tenant
  pub last_inbound_at : Option ℕ
  pub now : ℕ
  pub new_id : String
  pub is_queued : Bool
  pub is_deleted : Bool
  pub before_tx : Desk → Desk

-- `deleteMany({ id, tenantId })`, or an error that is logged
unfoldable pub delete_message_compensating : Send → String → Desk → Desk
delete_message_compensating send id d =
    if send.is_deleted
    then record d { messages = filter (λ (m : ManualMessage). not (str_eq m.id id)) d.messages }
    else d

-- The transaction: the lead's state unless it has opted out, and the message.
unfoldable pub write_message : Send → Desk → SendResult × Desk
write_message send d = elim d.lead [
  | none ↦ (refused lead_opted_out, d)
  | some lead ↦
      if is_opted_out lead.state
      then (refused lead_opted_out, d)
      else let message : ManualMessage = record {
        id = send.new_id;
        body = send.text;
        sent_by_person_id = send.person_id;
      } in
        let lead' : Lead = record lead { state = human_handoff; handoff_at = some send.now } in
        (sent message lead', record d { lead = some lead'; messages = d.messages ++ message ∷ [] })
]

-- `messaging.sendText`, behind the transaction. `phone` is the lead's as it was read first.
unfoldable pub queue_message : Send → String → SendResult × Desk → SendResult × Desk
unfolding delete_message_compensating
queue_message send phone (refused e, d) = (refused e, d)
queue_message send phone (sent message lead, d) =
    if send.is_queued
    then (
      sent message lead,
      record d {
        jobs = d.jobs ++ (record { phone = phone; body = send.text; message_id = message.id }) ∷ [];
      },
    )
    else (refused bad_gateway, delete_message_compensating send message.id d)

-- The function under the lead's lock.
unfoldable pub write_and_queue : Send → String → SendResult × Desk → SendResult × Desk
unfolding write_message queue_message
write_and_queue send phone (result, d) =
    queue_message send phone (write_message send (send.before_tx d))

unfoldable pub send_locked : Services → Send → String → Store → Desk → SendResult × Desk × Store
unfolding write_and_queue with_lead_lock
send_locked svc send phone store d =
    let (done, store') =
      with_lead_lock svc (write_and_queue send phone) (refused lead_locked, d) store in
    elim done [ none ↦ (refused lead_locked, d, store') | some (result, d') ↦ (result, d', store') ]

unfoldable pub send_manual : Services → Send → Store → Desk → SendResult × Desk × Store
unfolding send_locked is_service_window_open
send_manual svc send store d = elim d.lead [
  | none ↦ (refused lead_not_found, d, store)
  | some lead ↦
      if is_opted_out lead.state
      then (refused lead_opted_out, d, store)
      else if not (is_service_window_open send.last_inbound_at send.now)
      then (refused service_window_closed, d, store)
      else elim send.tenant [
        | none ↦ (refused tenant_not_found, d, store)
        | some tenant ↦ send_locked svc send lead.phone store d
      ]
]
