-- ===== src/Webhook/Accepted.antt =====
-- What the acceptance of a new message may do to the tables and the queues.
use inmoagent.Prelude.{
  ℕ, String, false, ◌≡◌, refl, ap, sym, ◌∙◌, ◌⊎◌, inl, inr, some, List, [], ◌∷◌, ◌++◌, arith,
  Bool-cases,
}
use inmoagent.Webhook.Store.{
  Tenant, MessageRow, Job, Call, Db, Thrown, ok, thrown, unique_violation, outage, Error, LeadRow,
  breaks_key, find_or_create_by_phone, create_message, add_job,
}
use inmoagent.Webhook.{MetaMessage, row_of, job_of, accept}

-- Nothing; or the message is stored; or it is also queued. The events are not touched.
pub data Accepted (w : String) (a b : Db) : Type 0 where
  nothing : b.events ≡ a.events → b.messages ≡ a.messages → b.jobs ≡ a.jobs → Accepted w a b
  only_stored :
      (m : MessageRow)
      → m.wa_message_id ≡ some w
      → breaks_key m a.messages ≡ false
      → b.events ≡ a.events
      → b.messages ≡ a.messages ++ m ∷ []
      → b.jobs ≡ a.jobs
      → Accepted w a b
  wholly :
      (m : MessageRow) (job : Job)
      → m.wa_message_id ≡ some w
      → breaks_key m a.messages ≡ false
      → job.message_id ≡ m.id
      → b.events ≡ a.events
      → b.messages ≡ a.messages ++ m ∷ []
      → b.jobs ≡ a.jobs ++ job ∷ []
      → Accepted w a b

module _ (tenant : Tenant) (message : MetaMessage) where
  queue_it : LeadRow → Thrown MessageRow × Db → Db
  queue_it lead (ok saved, db) = (add_job (job_of tenant.id lead.id message saved.id) db).1
  queue_it lead (thrown e, db) = db

  store_it : Thrown LeadRow × Db → Db
  store_it (ok lead, db) = queue_it lead (create_message (row_of tenant.id lead.id message) db)
  store_it (thrown e, db) = db

  accept-eq :
      (now : ℕ) (db : Db)
      → (accept now tenant message db).1
        ≡ store_it (find_or_create_by_phone now tenant.id message.from db)
  unfolding accept store_it queue_it
  accept-eq now db = ground arith

abbrev pub Same : Db → Db → Type 0
Same a b = (b.events ≡ a.events) × (b.messages ≡ a.messages) × (b.jobs ≡ a.jobs)

find_or_create-Same :
    (now : ℕ) (tenant_id phone : String) (db : Db)
    → Same db (find_or_create_by_phone now tenant_id phone db).1
unfolding find_or_create_by_phone
find_or_create-Same now tenant_id phone db = ground arith

data Created (row : String → MessageRow) (a : Db) : Thrown MessageRow × Db → Type 0 where
  refused : (e : Error) (b : Db) → Same a b → Created row a (thrown e, b)
  created :
      (id : String) (m : MessageRow) (b : Db)
      → m ≡ row id
      → breaks_key m a.messages ≡ false
      → b.events ≡ a.events
      → b.messages ≡ a.messages ++ m ∷ []
      → b.jobs ≡ a.jobs
      → Created row a (ok m, b)

create_message-Created :
    (row : String → MessageRow) (tenants : List Tenant) (events : List String)
    (leads : List LeadRow) (messages : List MessageRow) (jobs : List Job) (calls : List Call)
    → let db : Db = record {
      tenants = tenants;
      events = events;
      leads = leads;
      messages = messages;
      jobs = jobs;
      calls = calls;
    } in
      Created row db (create_message row db)
unfolding create_message
create_message-Created row tenants events leads messages jobs [] =
    refused outage _ (refl, refl, refl)
create_message-Created row tenants events leads messages jobs (c ∷ calls) =
    elim (Bool-cases c.fails) [
      | inl e ↦ rw e (refused outage _ (refl, refl, refl))
      | inr e ↦ elim (Bool-cases (breaks_key (row c.new_id) messages)) [
        | inl e' ↦ rw (e, e') (refused unique_violation _ (refl, refl, refl))
        | inr e' ↦ rw (e, e') (created c.new_id (row c.new_id) _ refl e' refl refl refl)
      ]
    ]

add_job-adds :
    (job : Job) (db : Db)
    → ((add_job job db).1.events ≡ db.events) × ((add_job job db).1.messages ≡ db.messages)
unfolding add_job
add_job-adds job db = ground arith

add_job-jobs :
    (job : Job) (db : Db)
    → ((add_job job db).1.jobs ≡ db.jobs) ⊎ ((add_job job db).1.jobs ≡ db.jobs ++ job ∷ [])
unfolding add_job
add_job-jobs job db = ground arith

module _ (tenant : Tenant) (message : MetaMessage) where
  queue_it-Accepted :
      (lead : LeadRow) (a : Db) (r : Thrown MessageRow × Db)
      → Created (row_of tenant.id lead.id message) a r
      → Accepted message.id a (queue_it tenant message lead r)
  unfolding queue_it row_of job_of
  queue_it-Accepted lead a _ (refused e b (events, messages, jobs)) = nothing events messages jobs
  queue_it-Accepted lead a _ (created id m b is_row free events messages jobs) =
      let job = job_of tenant.id lead.id message m.id in
      let (events', messages') = add_job-adds job b in
      let wa : m.wa_message_id ≡ some message.id =
        ap (λ (x : MessageRow). x.wa_message_id) is_row in
      elim (add_job-jobs job b) [
        | inl same ↦ only_stored m wa free (events' ∙ events) (messages' ∙ messages) (same ∙ jobs)
        | inr added ↦
            wholly m job wa free refl (events' ∙ events) (messages' ∙ messages)
              (added ∙ ap (λ (l : List Job). l ++ job ∷ []) jobs)
      ]

  -- From `db`, which has the same rows as `a`.
  Accepted-Same :
      (a db : Db) (b : Db) → Same a db → Accepted message.id db b → Accepted message.id a b
  Accepted-Same a db b (events, messages, jobs) (nothing e m j) =
      nothing (e ∙ events) (m ∙ messages) (j ∙ jobs)
  Accepted-Same a db b (events, messages, jobs) (only_stored row wa free e m j) =
      only_stored row wa (ap (breaks_key row) (sym messages) ∙ free) (e ∙ events)
        (m ∙ ap (λ (l : List MessageRow). l ++ row ∷ []) messages) (j ∙ jobs)
  Accepted-Same a db b (events, messages, jobs) (wholly row job wa free of_row e m j) =
      wholly row job wa (ap (breaks_key row) (sym messages) ∙ free) of_row (e ∙ events)
        (m ∙ ap (λ (l : List MessageRow). l ++ row ∷ []) messages)
        (j ∙ ap (λ (l : List Job). l ++ job ∷ []) jobs)

  store_it-Accepted :
      (a : Db) (r : Thrown LeadRow × Db)
      → Same a r.1
      → Accepted message.id a (store_it tenant message r)
  unfolding store_it
  store_it-Accepted a (thrown e, db) (events, messages, jobs) = nothing events messages jobs
  store_it-Accepted a (ok lead, db) same =
      let row = row_of tenant.id lead.id message in
      let r = create_message row db in
      Accepted-Same a db (queue_it tenant message lead r) same (
        queue_it-Accepted lead db r
          (create_message-Created row db.tenants db.events db.leads db.messages db.jobs db.calls))

  pub accept-Accepted :
      (now : ℕ) (db : Db) → Accepted message.id db (accept now tenant message db).1
  accept-Accepted now db =
      let r = find_or_create_by_phone now tenant.id message.from db in
      rw (accept-eq tenant message now db)
        (store_it-Accepted db r (find_or_create-Same now tenant.id message.from db))
