-- ===== src/Messaging.antt =====
-- src/messaging: messages to the provider, queued by messaging.service.ts, sent by outbound.processor.ts
-- through meta-graph.client.ts. The provider and the database are met as in Webhook.Store: what the next
-- calls meet is listed in the state.
pub mod Rows
pub mod Graph
pub mod Sent
pub mod Attempts
pub mod Duplicates
use inmoagent.Prelude.{
  ℕ, suc, zero, String, Bool, true, false, not, ◌&&◌, Option, none, some, List, [], ◌∷◌, ◌++◌,
  if◌then◌else◌, str_eq, truthy, length,
}
use inmoagent.Regex.{codes}
use inmoagent.Pipeline.Processor.{MessageType, text, image}
use inmoagent.Webhook.Store.{
  Units, Tenant, MessageRow, Db, Thrown, ok, thrown, outage, M, call, LeadRow,
  find_or_create_by_phone, create_message,
}
use Graph.{
  Payload, resolve_recipient, text_message, image_message, template_message, read_mark, Answer,
  accepted, outcome_of,
}

-- `OutboundJobData`
pub data OutboundJob : Type 0 where
  text_job : String → String → Units → Option String → OutboundJob
  image_job : String → String → String → Option Units → OutboundJob
  read_job : String → String → OutboundJob
  template_job : String → String → String → String → List Units → OutboundJob

abbrev pub tenant_id_of : OutboundJob → String
tenant_id_of (text_job tenant_id to body message_id) = tenant_id
tenant_id_of (image_job tenant_id to image_url caption) = tenant_id
tenant_id_of (read_job tenant_id wa_message_id) = tenant_id
tenant_id_of (template_job tenant_id to name language params) = tenant_id

-- The database, what the provider was handed, and what it will answer to the next posts.
pub record Outbox : Type 0 where
  pub db : Db
  pub delivered : List Payload
  pub answers : List Answer

-- `post`: the result is the id, "" where the provider gave none.
unfoldable pub post : Payload → Outbox → Thrown String × Outbox
unfolding outcome_of
post payload o = elim o.answers [
  | [] ↦ (thrown outage, o)
  | answer ∷ answers ↦
      let (got, id) = outcome_of answer in
      let o' : Outbox = record {
        db = o.db;
        delivered = if got then o.delivered ++ payload ∷ [] else o.delivered;
        answers = answers;
      } in
      elim id [ none ↦ (thrown outage, o') | some id ↦ (ok id, o') ]
]

-- The payload that a job is for.
unfoldable pub payload_of : Bool → OutboundJob → Payload
unfolding resolve_recipient
payload_of is_sandbox (text_job tenant_id to body message_id) =
    text_message (resolve_recipient is_sandbox (codes to)) body
payload_of is_sandbox (image_job tenant_id to image_url caption) =
    image_message (resolve_recipient is_sandbox (codes to)) image_url caption
payload_of is_sandbox (read_job tenant_id wa_message_id) = read_mark wa_message_id
payload_of is_sandbox (template_job tenant_id to name language params) =
    template_message (resolve_recipient is_sandbox (codes to)) name language params

-- `result.waMessageId || null`
abbrev pub id_or_null : String → Option String
id_or_null id = if str_eq id "" then none else some id

-- `message.updateMany({ where: { id, tenantId } })`
unfoldable pub set_wa_id : String → String → Option String → List MessageRow → List MessageRow
set_wa_id id tenant_id wa_message_id [] = []
set_wa_id id tenant_id wa_message_id (m ∷ messages) =
    (if str_eq m.id id && str_eq m.tenant_id tenant_id
      then record m { wa_message_id = wa_message_id }
      else m)
    ∷ set_wa_id id tenant_id wa_message_id messages

unfoldable pub update_sent : String → String → String → M (Unit {0})
unfolding set_wa_id
update_sent message_id tenant_id wa_message_id = call (λ new_id db. (
  ok tt,
  record db { messages = set_wa_id message_id tenant_id (id_or_null wa_message_id) db.messages },
))

-- The row of a message that the bot sent.
abbrev pub sent_row : String → MessageType → Option Units → String → LeadRow → String → MessageRow
sent_row tenant_id type body wa_message_id lead id = record {
  id = id;
  tenant_id = tenant_id;
  lead_id = lead.id;
  type = type;
  wa_message_id = id_or_null wa_message_id;
  body = body;
  media_id = none;
  last_status = none;
}

abbrev pub then_create :
    String → MessageType → Option Units → String → Thrown LeadRow × Db → Thrown (Unit {0}) × Db
then_create tenant_id type body wa_message_id (thrown e, db) = (thrown e, db)
then_create tenant_id type body wa_message_id (ok lead, db) =
    let (r, db') = create_message (sent_row tenant_id type body wa_message_id lead) db in
    elim r [ ok m ↦ (ok tt, db') | thrown e ↦ (thrown e, db') ]

unfoldable pub store_sent : ℕ → String → String → MessageType → Option Units → String → M (Unit {0})
unfolding find_or_create_by_phone create_message
store_sent now tenant_id to type body wa_message_id db =
    then_create tenant_id type body wa_message_id (find_or_create_by_phone now tenant_id to db)

-- The part of `sendAndPersist` behind the sending, for the kinds that are stored.
unfoldable pub persist : ℕ → OutboundJob → String → M (Unit {0})
unfolding update_sent store_sent
persist now (text_job tenant_id to body none) id = store_sent now tenant_id to text (some body) id
persist now (text_job tenant_id to body (some message_id)) id =
    if str_eq message_id ""
    then store_sent now tenant_id to text (some body) id
    else update_sent message_id tenant_id id
persist now (image_job tenant_id to image_url caption) id =
    store_sent now tenant_id to image caption id
persist now (read_job tenant_id wa_message_id) id = λ db. (ok tt, db)
persist now (template_job tenant_id to name language params) id = λ db. (ok tt, db)

abbrev pub then_persist : ℕ → OutboundJob → Thrown String × Outbox → Thrown (Unit {0}) × Outbox
then_persist now job (thrown e, o) = (thrown e, o)
then_persist now job (ok id, o) = let (r, db) = persist now job id o.db in (r, record o { db = db })

unfoldable pub send_and_persist : ℕ → Bool → OutboundJob → Outbox → Thrown (Unit {0}) × Outbox
unfolding post payload_of persist
send_and_persist now is_sandbox job o = then_persist now job (post (payload_of is_sandbox job) o)

unfoldable pub find_tenant_by_id : String → List Tenant → Option Tenant
find_tenant_by_id id [] = none
find_tenant_by_id id (t ∷ tenants) = if str_eq t.id id then some t else find_tenant_by_id id tenants

unfoldable pub find_by_id : String → M (Option Tenant)
unfolding find_tenant_by_id
find_by_id id = call (λ new_id db. (ok (find_tenant_by_id id db.tenants), db))

module _ (now : ℕ) (decrypts : Tenant → Bool) (is_sandbox : Bool) where
  -- Without the tenant, the job is dropped; a token that does not decrypt is an error.
  abbrev pub for_tenant :
      OutboundJob → Outbox → Thrown (Option Tenant) × Db → Thrown (Unit {0}) × Outbox
  unfolding send_and_persist
  for_tenant job o (thrown e, db) = (thrown e, record o { db = db })
  for_tenant job o (ok none, db) = (ok tt, record o { db = db })
  for_tenant job o (ok (some tenant), db) =
      if decrypts tenant
      then send_and_persist now is_sandbox job (record o { db = db })
      else (thrown outage, record o { db = db })

  -- One attempt.
  unfoldable pub process : OutboundJob → Outbox → Thrown (Unit {0}) × Outbox
  unfolding find_by_id send_and_persist
  process job o = for_tenant job o (find_by_id (tenant_id_of job) o.db)

  -- The queue's attempts: another one behind each that throws.
  unfoldable pub run_job : ℕ → OutboundJob → Outbox → Thrown (Unit {0}) × Outbox
  unfolding process
  run_job zero job o = (thrown outage, o)
  run_job (suc attempts) job o =
      let (r, o') = process job o in
      let again = run_job attempts job o' in elim r [ ok u ↦ (ok tt, o') | thrown e ↦ again ]

-- RETRY_JOB_OPTIONS.attempts
abbrev pub attempts : ℕ
attempts = 5
