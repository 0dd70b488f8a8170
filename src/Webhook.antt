-- ===== src/Webhook.antt =====
-- src/webhook/webhook.service.ts: what the messaging provider delivers. Each call of the database or
-- of a queue may fail.
pub mod Calendly
pub mod Signature
pub mod Buffered
pub mod Lost
pub mod Deliveries
pub mod Store
pub mod Accepted
pub mod Steps
pub mod Once
use inmoagent.Prelude.{
  ℕ, String, Bool, true, false, not, ◌&&◌, ◌||◌, Option, none, some, List, [], ◌∷◌, if◌then◌else◌,
  str_eq, truthy, lookup, or_value,
}
use inmoagent.Pipeline.Processor.{MessageType, text, audio, image, document, unsupported}
use Store.{
  Units, Tenant, Queue, inbound, media, Job, MessageRow, Status, Db, M, Thrown, thrown, ok, pure,
  ◌>>=◌, ◌>>◌, record_webhook_event, find_or_create_by_phone, find_message, set_last_status,
  create_message, add_job, find_by_phone_number_id,
}

-- `MetaWebhookMessage`. A part is there or not, whatever the type says.
pub record Media : Type 0 where
  pub id : String
  pub caption : Option Units

pub record MetaMessage : Type 0 where
  pub from : String
  pub id : String
  pub type : String
  pub text_body : Option Units
  pub audio_id : Option String
  pub image_part : Option Media
  pub document_part : Option Media

-- `MetaWebhookValue`
pub record Value : Type 0 where
  pub phone_number_id : Option String
  pub messages : List MetaMessage
  pub statuses : List Status

-- MESSAGE_TYPE_MAP
abbrev pub message_type_map : List (String × MessageType)
message_type_map =
    ("text", text) ∷ ("audio", audio) ∷ ("image", image) ∷ ("document", document) ∷ []

unfoldable pub type_of : String → MessageType
type_of type = or_value (lookup type message_type_map) unsupported

abbrev pub caption_of : Option Media → Option Units
caption_of none = none
caption_of (some m) = m.caption

abbrev pub media_id_of : Option Media → Option String
media_id_of none = none
media_id_of (some m) = some m.id

-- The body and the media's id.
unfoldable pub extract_content : MetaMessage → MessageType → Option Units × Option String
extract_content message text = (message.text_body, none)
extract_content message audio = (none, message.audio_id)
extract_content message image = (caption_of message.image_part, media_id_of message.image_part)
extract_content message document =
    (caption_of message.document_part, media_id_of message.document_part)
extract_content message _ = (none, none)

unfoldable pub queue_of : MessageType → Queue
queue_of audio = media
queue_of image = media
queue_of _ = inbound

-- The row to be stored, but for its id.
unfoldable pub row_of : String → String → MetaMessage → String → MessageRow
unfolding type_of extract_content
row_of tenant_id lead_id message id =
    let type = type_of message.type in
    let (body, media_id) = extract_content message type in
    record {
      id = id;
      tenant_id = tenant_id;
      lead_id = lead_id;
      type = type;
      wa_message_id = some message.id;
      body = body;
      media_id = media_id;
      last_status = none;
    }

unfoldable pub job_of : String → String → MetaMessage → String → Job
unfolding queue_of type_of
job_of tenant_id lead_id message message_id = record {
  queue = queue_of (type_of message.type);
  tenant_id = tenant_id;
  lead_id = lead_id;
  message_id = message_id;
}

-- The part of `handleMessage` behind the test for a duplicate.
unfoldable pub accept : ℕ → Tenant → MetaMessage → M (Unit {0})
unfolding find_or_create_by_phone create_message add_job row_of job_of
accept now tenant message = do
  lead ← find_or_create_by_phone now tenant.id message.from
  saved ← create_message (row_of tenant.id lead.id message)
  add_job (job_of tenant.id lead.id message saved.id)

abbrev pub if_new : ℕ → Tenant → MetaMessage → Bool → M (Unit {0})
unfolding accept
if_new now tenant message true = accept now tenant message
if_new now tenant message false = pure tt

unfoldable pub handle_message : ℕ → Tenant → MetaMessage → M (Unit {0})
unfolding record_webhook_event
handle_message now tenant message = do
  is_new ← record_webhook_event message.id tenant.id
  if_new now tenant message is_new

abbrev pub mark : Tenant → Status → Option MessageRow → M (Unit {0})
unfolding set_last_status
mark tenant status none = pure tt
mark tenant status (some message) =
    if str_eq message.tenant_id tenant.id then set_last_status message.id status else pure tt

unfoldable pub handle_status : Tenant → Status → M (Unit {0})
unfolding find_message
handle_status tenant status = do message ← find_message status.id; mark tenant status message

-- `.catch` with a log line: what was written before stays.
abbrev pub logged : M (Unit {0}) → Db → Db
logged m db = (m db).1

unfoldable pub handle_statuses : Tenant → List Status → Db → Db
unfolding handle_status
handle_statuses tenant [] db = db
handle_statuses tenant (status ∷ statuses) db =
    handle_statuses tenant statuses (logged (handle_status tenant status) db)

unfoldable pub handle_messages : ℕ → Tenant → List MetaMessage → Db → Db
unfolding handle_message
handle_messages now tenant [] db = db
handle_messages now tenant (message ∷ messages) db =
    handle_messages now tenant messages (logged (handle_message now tenant message) db)

unfoldable pub handle_items : ℕ → Value → Option Tenant → Db → Db
unfolding handle_statuses handle_messages
handle_items now value none db = db
handle_items now value (some tenant) db =
    handle_messages now tenant value.messages (handle_statuses tenant value.statuses db)

-- The tenant of the number, or an error, after which nothing of the change is handled.
unfoldable pub with_found : ℕ → Value → Thrown (Option Tenant) × Db → Db
unfolding handle_items
with_found now value (ok found, db) = handle_items now value found db
with_found now value (thrown e, db) = db

unfoldable pub handle_change : ℕ → Value → Db → Db
unfolding with_found find_by_phone_number_id
handle_change now value db = elim value.phone_number_id [
  | none ↦ db
  | some phone_number_id ↦
      if str_eq phone_number_id ""
      then db
      else with_found now value (find_by_phone_number_id phone_number_id db)
]

-- The changes of the entries, one after the other.
unfoldable pub handle_payload : ℕ → List Value → Db → Db
unfolding handle_change
handle_payload now [] db = db
handle_payload now (value ∷ values) db = handle_payload now values (handle_change now value db)
