-- ===== src/Tests/Deliveries.antt =====
-- The webhook and the outbound queue at concrete inputs.
use inmoagent.Prelude.{ℕ, ◌+◌, String, true, false, ◌≡◌, refl, none, some, List, [], ◌∷◌, ◌++◌}
use inmoagent.Regex.{codes}
use inmoagent.Domain.Lead.{proposed}
use inmoagent.Pipeline.Store.{absent}
use inmoagent.Pipeline.Store
use inmoagent.Pipeline.Processor
use inmoagent.Webhook.Store.{Tenant, Call, Db, ok, has_event, has_wa_id}
use inmoagent.Webhook.{MetaMessage, Value, handle_message}
use inmoagent.Webhook.Deliveries.{handle_payloads}
use inmoagent.Webhook.Once.{IsOnce, handle_payloads-IsOnce}
use inmoagent.Webhook.Lost.{handle_message-lost}
use inmoagent.Webhook.Calendly.{LeadRow, AppointmentRow, Payload, confirm_last}
use inmoagent.Messaging.Graph.{accepted}
use inmoagent.Messaging.{
  OutboundJob, text_job, Outbox, payload_of, tenant_id_of, find_tenant_by_id, run_job, attempts,
}
use inmoagent.Messaging.Rows.{new_rows}
use inmoagent.Messaging.Sent.{Sent, copies}
use inmoagent.Messaging.Attempts.{run_job-Sent}
use inmoagent.Messaging.Duplicates.{run_job-twice}

abbrev agency : Tenant
agency = record { id = "t1"; phone_number_id = "n1" }

abbrev hello : MetaMessage
hello = record {
  from = "549";
  id = "wa1";
  type = "text";
  text_body = some (codes "hola");
  audio_id = none;
  image_part = none;
  document_part = none;
}

abbrev works : String → Call
works id = record { fails = false; new_id = id }

abbrev broken : Call
broken = record { fails = true; new_id = "" }

abbrev empty : List Call → Db
empty calls = record {
  tenants = agency ∷ [];
  events = [];
  leads = [];
  messages = [];
  jobs = [];
  calls = calls;
}

abbrev delivery : List (ℕ × List Value)
delivery =
    (5, (record { phone_number_id = some "n1"; messages = hello ∷ hello ∷ []; statuses = [] }) ∷ [])
    ∷ []

abbrev five_calls : List Call
five_calls = works "" ∷ works "" ∷ works "l1" ∷ works "m1" ∷ works "" ∷ works "" ∷ []

handle_payloads-IsOnce_example : IsOnce (handle_payloads delivery (empty five_calls))
handle_payloads-IsOnce_example = handle_payloads-IsOnce delivery (empty five_calls) (tt, refl)

unseen : has_event hello.id (empty []).events ≡ false
unfolding has_event
unseen = refl

unstored : has_wa_id hello.id (empty []).messages ≡ false
unfolding has_wa_id
unstored = refl

abbrev then_broken : List Call
then_broken = works "" ∷ broken ∷ five_calls

handle_message-lost_example :
    has_wa_id hello.id
      (handle_payloads delivery (handle_message 5 agency hello (empty then_broken)).1).messages
    ≡ false
handle_message-lost_example =
    handle_message-lost 5 agency hello (empty then_broken) (works "") broken five_calls delivery
      refl refl refl unseen unstored

abbrev four_calls : List Call
four_calls = works "" ∷ works "l1" ∷ works "m1" ∷ works "" ∷ []

abbrev store : Store.Store
store = record { buffer = []; lock = false; turn = absent; retry = absent }

abbrev anyone : LeadRow
anyone = record { id = "l1"; tenant_id = "t2"; phone = codes "549"; f_notes = none }

abbrev visit : AppointmentRow
visit = record {
  id = "a1";
  lead_id = "l1";
  tenant_id = "t2";
  status = proposed;
  created_at = 1;
  scheduled_at = none;
  notes = none;
  assigned_user_id = none;
}

abbrev forged : Payload
forged = record {
  event = codes "invitee.created";
  email = none;
  text_reminder_number = some (codes "x");
  phone = none;
  start_time = some 9;
  name = none;
}

-- The forged request does confirm the visit.
visit_confirmed : (confirm_last 5 forged anyone (visit ∷ [])).0 ≡ true
unfolding confirm_last
visit_confirmed = refl

abbrev reply : OutboundJob
reply = text_job "t1" "549" (codes "hola") none

abbrev outbox : Outbox
outbox = record {
  db = empty (works "" ∷ broken ∷ works "" ∷ works "l1" ∷ works "m1" ∷ []);
  delivered = [];
  answers = accepted (some "wa2") ∷ accepted (some "wa3") ∷ [];
}

run_job-Sent_example :
    let (r, after) = run_job 5 (λ t. true) false attempts reply outbox in
    Sent 5 (payload_of false reply) (tenant_id_of reply) (new_rows reply) outbox after r
run_job-Sent_example = run_job-Sent 5 (λ t. true) false reply outbox

known : find_tenant_by_id "t1" outbox.db.tenants ≡ some agency
unfolding find_tenant_by_id
known = refl

succeeds : (run_job 5 (λ t. true) false attempts reply outbox).0 ≡ ok tt
unfolding run_job
succeeds = refl

run_job-twice_example :
    (more : ℕ) × ((run_job 5 (λ t. true) false attempts reply outbox).1.delivered
      ≡ [] ++ copies (2 + more) (payload_of false reply))
run_job-twice_example =
    run_job-twice 5 (λ t. true) false "t1" "549" (codes "hola") outbox agency (works "") broken
      (works "" ∷ works "l1" ∷ works "m1" ∷ []) "wa2" (accepted (some "wa3") ∷ []) known refl refl
      refl refl refl succeeds
