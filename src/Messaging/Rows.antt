-- ===== src/Messaging/Rows.antt =====
-- The rows of messages that the outbound processor adds.
use inmoagent.Prelude.{
  ℕ, ◌+◌, String, ◌≡◌, refl, inl, inr, Option, none, some, List, [], ◌∷◌, ◌++◌, length,
  length-append, arith, Bool-cases, if◌then◌else◌, str_eq,
}
use inmoagent.Webhook.Store.{
  Units, MessageRow, LeadRow, Db, Thrown, ok, thrown, Call, find_or_create_by_phone, create_message,
}
use inmoagent.Pipeline.Processor.{MessageType}
use inmoagent.Messaging.{
  OutboundJob, text_job, image_job, read_job, template_job, set_wa_id, update_sent, then_create,
  store_sent, persist, sent_row, id_or_null,
}

-- The rows that a job which succeeds adds: none where the message was stored before.
abbrev pub new_rows : OutboundJob → ℕ
new_rows (text_job tenant_id to body none) = 1
new_rows (text_job tenant_id to body (some message_id)) = if str_eq message_id "" then 1 else 0
new_rows (image_job tenant_id to image_url caption) = 1
new_rows (read_job tenant_id wa_message_id) = 0
new_rows (template_job tenant_id to name language params) = 0

abbrev pub if_ok : {A : Type 0} → Thrown A → ℕ → ℕ
if_ok (ok a) n = n
if_ok (thrown e) n = 0

-- A call that adds `n` rows of messages where it succeeds, and none where it fails.
abbrev pub Adds : {A : Type 0} → ℕ → Db → Thrown A × Db → Type 0
Adds n a (r, b) = (length b.messages ≡ length a.messages + if_ok r n) × (b.tenants ≡ a.tenants)

length-set_wa_id :
    (id tenant_id : String) (w : Option String) (messages : List MessageRow)
    → length (set_wa_id id tenant_id w messages) ≡ length messages
unfolding set_wa_id
length-set_wa_id id tenant_id w [] = refl
length-set_wa_id id tenant_id w (m ∷ messages) =
    omega (arith, length-set_wa_id id tenant_id w messages)

update_sent-Adds : (id tenant_id w : String) (db : Db) → Adds 0 db (update_sent id tenant_id w db)
unfolding update_sent
update_sent-Adds id tenant_id w db =
    (ground (arith, length-set_wa_id id tenant_id (id_or_null w) db.messages), ground arith)

find_or_create-Adds :
    (now : ℕ) (tenant_id phone : String) (db : Db)
    → Adds 0 db (find_or_create_by_phone now tenant_id phone db)
unfolding find_or_create_by_phone
find_or_create-Adds now tenant_id phone db = (ground arith, ground arith)

length-snoc :
    (messages : List MessageRow) (m : MessageRow)
    → length (messages ++ m ∷ []) ≡ length messages + 1
length-snoc messages m = omega (arith, length-append messages (m ∷ []))

create_message-Adds :
    (row : String → MessageRow) (db : Db) (calls : List Call)
    → db.calls ≡ calls
    → Adds 1 db (create_message row db)
unfolding create_message
create_message-Adds row db [] e = (ground (arith, e), ground (arith, e))
create_message-Adds row db (c ∷ calls) e =
    (ground (arith, e, length-snoc db.messages (row c.new_id)), ground (arith, e))

then_create-Adds :
    (tenant_id : String) (type : MessageType) (body : Option Units) (w : String) (a : Db)
    (r : Thrown LeadRow × Db)
    → Adds 0 a r
    → Adds 1 a (then_create tenant_id type body w r)
then_create-Adds tenant_id type body w a (thrown e, db) h = h
then_create-Adds tenant_id type body w a (ok lead, db) h =
    let c = create_message-Adds (sent_row tenant_id type body w lead) db db.calls refl in
    (ground (arith, h.0, c.0), ground (arith, h.1, c.1))

store_sent-Adds :
    (now : ℕ) (tenant_id to : String) (type : MessageType) (body : Option Units) (w : String)
    (db : Db)
    → Adds 1 db (store_sent now tenant_id to type body w db)
unfolding store_sent
store_sent-Adds now tenant_id to type body w db =
    then_create-Adds tenant_id type body w db (find_or_create_by_phone now tenant_id to db)
      (find_or_create-Adds now tenant_id to db)

pub persist-Adds :
    (now : ℕ) (job : OutboundJob) (id : String) (db : Db)
    → Adds (new_rows job) db (persist now job id db)
unfolding persist
persist-Adds now (text_job tenant_id to body none) id db =
    store_sent-Adds now tenant_id to _ _ id db
persist-Adds now (text_job tenant_id to body (some message_id)) id db =
    elim (Bool-cases (str_eq message_id "")) [
      | inl e ↦ rw e (store_sent-Adds now tenant_id to _ _ id db)
      | inr e ↦ rw e (update_sent-Adds message_id tenant_id id db)
    ]
persist-Adds now (image_job tenant_id to image_url caption) id db =
    store_sent-Adds now tenant_id to _ _ id db
persist-Adds now (read_job tenant_id wa_message_id) id db = (omega arith, refl)
persist-Adds now (template_job tenant_id to name language params) id db = (omega arith, refl)
