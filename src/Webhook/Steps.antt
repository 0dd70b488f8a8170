-- ===== src/Webhook/Steps.antt =====
-- What the handling of one delivered message may do to the tables and the queues.
use inmoagent.Prelude.{
  ℕ, String, Bool, true, false, ◌≡◌, refl, ap, sym, ◌∙◌, inl, inr, some, List, [], ◌∷◌, ◌++◌, arith,
  Bool-cases,
}
use inmoagent.Webhook.Store.{
  Tenant, MessageRow, Job, Call, Db, Thrown, ok, thrown, outage, LeadRow, has_event, breaks_key,
  create_event, record_webhook_event,
}
use inmoagent.Webhook.{MetaMessage, if_new, handle_message}
use inmoagent.Webhook.Accepted.{nothing, only_stored, wholly, Same, accept-Accepted}

-- Nothing; or the event alone is recorded; or the message is stored too; or it is also queued.
pub data Handled (w : String) (a b : Db) : Type 0 where
  ignored : b.events ≡ a.events → b.messages ≡ a.messages → b.jobs ≡ a.jobs → Handled w a b
  recorded :
      has_event w a.events ≡ false
      → b.events ≡ w ∷ a.events
      → b.messages ≡ a.messages
      → b.jobs ≡ a.jobs
      → Handled w a b
  stored :
      (m : MessageRow)
      → m.wa_message_id ≡ some w
      → breaks_key m a.messages ≡ false
      → has_event w a.events ≡ false
      → b.events ≡ w ∷ a.events
      → b.messages ≡ a.messages ++ m ∷ []
      → b.jobs ≡ a.jobs
      → Handled w a b
  queued :
      (m : MessageRow) (job : Job)
      → m.wa_message_id ≡ some w
      → breaks_key m a.messages ≡ false
      → job.message_id ≡ m.id
      → has_event w a.events ≡ false
      → b.events ≡ w ∷ a.events
      → b.messages ≡ a.messages ++ m ∷ []
      → b.jobs ≡ a.jobs ++ job ∷ []
      → Handled w a b

abbrev is_true : Thrown Bool → Bool
is_true (ok b) = b
is_true (thrown e) = false

data Recorded (w : String) (a : Db) : Thrown Bool × Db → Type 0 where
  unknown : (r : Thrown Bool) (b : Db) → is_true r ≡ false → Same a b → Recorded w a (r, b)
  fresh :
      (b : Db)
      → has_event w a.events ≡ false
      → b.events ≡ w ∷ a.events
      → b.messages ≡ a.messages
      → b.jobs ≡ a.jobs
      → Recorded w a (ok true, b)

record_event-Recorded :
    (w tenant_id : String) (tenants : List Tenant) (events : List String) (leads : List LeadRow)
    (messages : List MessageRow) (jobs : List Job) (calls : List Call)
    → let db : Db = record {
      tenants = tenants;
      events = events;
      leads = leads;
      messages = messages;
      jobs = jobs;
      calls = calls;
    } in
      Recorded w db (record_webhook_event w tenant_id db)
unfolding record_webhook_event create_event
record_event-Recorded w tenant_id tenants events leads messages jobs [] =
    unknown (thrown outage) _ refl (refl, refl, refl)
record_event-Recorded w tenant_id tenants events leads messages jobs (c ∷ calls) =
    elim (Bool-cases c.fails) [
      | inl e ↦ rw e (unknown (thrown outage) _ refl (refl, refl, refl))
      | inr e ↦ elim (Bool-cases (has_event w events)) [
        | inl e' ↦ rw (e, e') (unknown (ok false) _ refl (refl, refl, refl))
        | inr e' ↦ rw (e, e') (fresh _ e' refl refl refl)
      ]
    ]

module _ (now : ℕ) (tenant : Tenant) (message : MetaMessage) where
  go_on : Thrown Bool × Db → Db
  go_on (ok is_new, db) = (if_new now tenant message is_new db).1
  go_on (thrown e, db) = db

  handle_message-eq :
      (db : Db)
      → (handle_message now tenant message db).1
        ≡ go_on (record_webhook_event message.id tenant.id db)
  unfolding handle_message go_on
  handle_message-eq db = ground arith

  go_on-Handled :
      (a : Db) (r : Thrown Bool × Db) → Recorded message.id a r → Handled message.id a (go_on r)
  unfolding go_on if_new
  go_on-Handled a _ (unknown (ok true) b h same) = absurd (cc h)
  go_on-Handled a _ (unknown (ok false) b h (events, messages, jobs)) = ignored events messages jobs
  go_on-Handled a _ (unknown (thrown e) b h (events, messages, jobs)) = ignored events messages jobs
  go_on-Handled a _ (fresh b new events messages jobs) =
      elim (accept-Accepted tenant message now b) [
        | nothing e m j ↦ recorded new (e ∙ events) (m ∙ messages) (j ∙ jobs)
        | only_stored row wa free e m j ↦
            stored row wa (ap (breaks_key row) (sym messages) ∙ free) new (e ∙ events)
              (m ∙ ap (λ (l : List MessageRow). l ++ row ∷ []) messages) (j ∙ jobs)
        | wholly row job wa free of_row e m j ↦
            queued row job wa (ap (breaks_key row) (sym messages) ∙ free) of_row new (e ∙ events)
              (m ∙ ap (λ (l : List MessageRow). l ++ row ∷ []) messages)
              (j ∙ ap (λ (l : List Job). l ++ job ∷ []) jobs)
      ]

  pub handle_message-Handled :
      (db : Db) → Handled message.id db (handle_message now tenant message db).1
  handle_message-Handled db = rw (handle_message-eq db) (
      go_on-Handled db (record_webhook_event message.id tenant.id db) (
        record_event-Recorded message.id tenant.id db.tenants db.events db.leads db.messages db.jobs
          db.calls))
