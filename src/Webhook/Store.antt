-- ===== src/Webhook/Store.antt =====
-- What the webhook reads and writes: the tables of tenants, events, leads and messages, and the queues;
-- src/tenants/tenants.service.ts, src/leads/leads.service.ts, and the keys of prisma/schema.prisma.
use inmoagent.Prelude.{
  ℕ, String, Bool, true, false, ◌&&◌, ◌||◌, Option, none, some, List, [], ◌∷◌, ◌++◌, if◌then◌else◌,
  str_eq,
}
use inmoagent.Pipeline.Processor.{MessageType}

abbrev pub Units : Type 0
Units = List ℕ

pub record Tenant : Type 0 where
  pub id : String
  pub phone_number_id : String

pub record LeadRow : Type 0 where
  pub id : String
  pub tenant_id : String
  pub phone : String
  pub last_message_at : ℕ

-- `MetaWebhookStatus`
pub record Status : Type 0 where
  pub id : String
  pub status : String

-- A row of `Message`; of `meta`, what the statuses write.
pub record MessageRow : Type 0 where
  pub id : String
  pub tenant_id : String
  pub lead_id : String
  pub type : MessageType
  pub wa_message_id : Option String
  pub body : Option Units
  pub media_id : Option String
  pub last_status : Option Status

pub data Queue : Type 0 where
  inbound media : Queue

-- `MessageQueueJob`
pub record Job : Type 0 where
  pub queue : Queue
  pub tenant_id : String
  pub lead_id : String
  pub message_id : String

-- What one call of the database or of a queue meets: whether it fails, and the id for a new row.
pub record Call : Type 0 where
  pub fails : Bool
  pub new_id : String

-- `events` are the provider's ids that were recorded; `jobs` are those of both queues, as they were
-- added; `calls` is for the next calls, in order. A call for which it has nothing fails.
pub record Db : Type 0 where
  pub tenants : List Tenant
  pub events : List String
  pub leads : List LeadRow
  pub messages : List MessageRow
  pub jobs : List Job
  pub calls : List Call

pub data Error : Type 0 where
  unique_violation outage : Error

pub data Thrown (A : Type 0) : Type 0 where
  ok : A → Thrown A
  thrown : Error → Thrown A

abbrev pub M : Type 0 → Type 0
M A = Db → Thrown A × Db

abbrev pub pure : {A : Type 0} → A → M A
pure a db = (ok a, db)

infixl 5 ◌>>=◌ ◌>>◌
abbrev pub ◌>>=◌ : {A B : Type 0} → M A → (A → M B) → M B
◌>>=◌ m f db = let (r, db') = m db in elim r [ ok a ↦ f a db' | thrown e ↦ (thrown e, db') ]

abbrev pub ◌>>◌ : {A B : Type 0} → M A → M B → M B
m >> k = m >>= λ _. k

abbrev meet : {A : Type 0} → (String → M A) → Call → M A
meet f c db = if c.fails then (thrown outage, db) else f c.new_id db

-- One call, which does `f` where it does not fail.
abbrev pub call : {A : Type 0} → (String → M A) → M A
call f db = elim db.calls [
  | [] ↦ (thrown outage, db)
  | c ∷ calls ↦ meet f c (record db { calls = calls })
]

unfoldable pub find_tenant : String → List Tenant → Option Tenant
find_tenant phone_number_id [] = none
find_tenant phone_number_id (t ∷ tenants) =
    if str_eq t.phone_number_id phone_number_id then some t else find_tenant phone_number_id tenants

unfoldable pub find_by_phone_number_id : String → M (Option Tenant)
unfolding find_tenant
find_by_phone_number_id phone_number_id =
    call (λ new_id db. (ok (find_tenant phone_number_id db.tenants), db))

unfoldable pub has_event : String → List String → Bool
has_event wa_message_id [] = false
has_event wa_message_id (event ∷ events) =
    str_eq event wa_message_id || has_event wa_message_id events

unfoldable pub create_event : String → M (Unit {0})
unfolding has_event
create_event wa_message_id = call (λ new_id db.
    if has_event wa_message_id db.events
    then (thrown unique_violation, db)
    else (ok tt, record db { events = wa_message_id ∷ db.events }))

abbrev is_new_event : Thrown (Unit {0}) × Db → Thrown Bool × Db
is_new_event (ok u, db) = (ok true, db)
is_new_event (thrown unique_violation, db) = (ok false, db)
is_new_event (thrown outage, db) = (thrown outage, db)

unfoldable pub record_webhook_event : String → String → M Bool
unfolding create_event
record_webhook_event wa_message_id tenant_id db = is_new_event (create_event wa_message_id db)

abbrev is_lead_of : String → String → LeadRow → Bool
is_lead_of tenant_id phone l = str_eq l.tenant_id tenant_id && str_eq l.phone phone

-- `lead.upsert` by the key (tenant, phone): the row, and the table with it.
unfoldable pub upsert_lead : ℕ → String → String → String → List LeadRow → LeadRow × List LeadRow
upsert_lead now new_id tenant_id phone [] =
    let row : LeadRow = record {
      id = new_id;
      tenant_id = tenant_id;
      phone = phone;
      last_message_at = now;
    } in
    (row, row ∷ [])
upsert_lead now new_id tenant_id phone (l ∷ leads) =
    let (row, rest) = upsert_lead now new_id tenant_id phone leads in
    let touched : LeadRow = record l { last_message_at = now } in
    if is_lead_of tenant_id phone l then (touched, touched ∷ leads) else (row, l ∷ rest)

unfoldable pub find_or_create_by_phone : ℕ → String → String → M LeadRow
unfolding upsert_lead
find_or_create_by_phone now tenant_id phone = call (λ new_id db.
    let (row, leads) = upsert_lead now new_id tenant_id phone db.leads in
    (ok row, record db { leads = leads }))

abbrev pub is_wa_id : String → Option String → Bool
is_wa_id wa_message_id none = false
is_wa_id wa_message_id (some id) = str_eq id wa_message_id

unfoldable pub has_wa_id : String → List MessageRow → Bool
has_wa_id wa_message_id [] = false
has_wa_id wa_message_id (m ∷ messages) =
    is_wa_id wa_message_id m.wa_message_id || has_wa_id wa_message_id messages

unfoldable pub has_message : String → List MessageRow → Bool
has_message id [] = false
has_message id (m ∷ messages) = str_eq m.id id || has_message id messages

-- The keys of `Message`: its id, and the provider's id if it has one.
unfoldable pub breaks_key : MessageRow → List MessageRow → Bool
unfolding has_message has_wa_id
breaks_key row messages = has_message row.id messages || elim row.wa_message_id [
  | none ↦ false
  | some wa_message_id ↦ has_wa_id wa_message_id messages
]

-- `row` is what is to be written, but for the id.
unfoldable pub create_message : (String → MessageRow) → M MessageRow
unfolding breaks_key
create_message row = call (λ new_id db.
    if breaks_key (row new_id) db.messages
    then (thrown unique_violation, db)
    else (ok (row new_id), record db { messages = db.messages ++ row new_id ∷ [] }))

unfoldable pub add_job : Job → M (Unit {0})
add_job job = call (λ new_id db. (ok tt, record db { jobs = db.jobs ++ job ∷ [] }))

unfoldable pub find_by_wa_id : String → List MessageRow → Option MessageRow
find_by_wa_id wa_message_id [] = none
find_by_wa_id wa_message_id (m ∷ messages) =
    if is_wa_id wa_message_id m.wa_message_id then some m else find_by_wa_id wa_message_id messages

unfoldable pub find_message : String → M (Option MessageRow)
unfolding find_by_wa_id
find_message wa_message_id = call (λ new_id db. (ok (find_by_wa_id wa_message_id db.messages), db))

unfoldable pub with_status : String → Status → List MessageRow → List MessageRow
with_status id status [] = []
with_status id status (m ∷ messages) =
    (if str_eq m.id id then record m { last_status = some status } else m)
    ∷ with_status id status messages

unfoldable pub set_last_status : String → Status → M (Unit {0})
unfolding with_status
set_last_status id status =
    call (λ new_id db. (ok tt, record db { messages = with_status id status db.messages }))
