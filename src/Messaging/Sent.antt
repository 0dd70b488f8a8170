-- ===== src/Messaging/Sent.antt =====
-- What one attempt of a job puts to the provider and stores.
use inmoagent.Prelude.{
  ℕ, zero, suc, ◌+◌, ◌≤◌, String, Bool, true, false, ◌≡◌, refl, sym, ◌∙◌, ap, ◌⊎◌, inl, inr, Option,
  none, some, List, [], ◌∷◌, ◌++◌, length, arith, Bool-cases,
}
use mathlib.Core.List.{append-nil}
use inmoagent.Webhook.Store.{Tenant, Db, Thrown, ok, thrown, outage}
use inmoagent.Messaging.Graph.{Payload, Answer, no_answer, rejected, accepted, outcome_of}
use inmoagent.Messaging.{
  OutboundJob, Outbox, post, payload_of, persist, then_persist, send_and_persist, find_by_id,
  for_tenant, find_tenant_by_id, tenant_id_of, process,
}
use inmoagent.Messaging.Rows.{new_rows, if_ok, persist-Adds}

abbrev pub copies : ℕ → Payload → List Payload
copies zero p = []
copies (suc n) p = p ∷ copies n p

-- Whether the provider gets the next post.
abbrev gets : List Answer → ℕ
gets [] = 0
gets (no_answer false ∷ answers) = 0
gets (no_answer true ∷ answers) = 1
gets (rejected ∷ answers) = 0
gets (accepted id ∷ answers) = 1

abbrev Posted : Payload → Outbox → List Answer → Thrown String × Outbox → Type 0
Posted p o answers (r, b) =
    (b.delivered ≡ o.delivered ++ copies (gets answers) p)
    × (b.db ≡ o.db)
    × ((r ≡ thrown outage) ⊎ (gets answers ≡ 1))

post-Posted :
    (p : Payload) (o : Outbox) (answers : List Answer)
    → o.answers ≡ answers
    → Posted p o answers (post p o)
unfolding post outcome_of
post-Posted p o [] e = rw e (sym (append-nil o.delivered), refl, inl refl)
post-Posted p o (no_answer false ∷ answers) e = rw e (sym (append-nil o.delivered), refl, inl refl)
post-Posted p o (no_answer true ∷ answers) e = rw e (refl, refl, inl refl)
post-Posted p o (rejected ∷ answers) e = rw e (sym (append-nil o.delivered), refl, inl refl)
post-Posted p o (accepted none ∷ answers) e = rw e (refl, refl, inr refl)
post-Posted p o (accepted (some id) ∷ answers) e = rw e (refl, refl, inr refl)

gets-le-one : (answers : List Answer) → gets answers ≤ 1
gets-le-one [] = omega arith
gets-le-one (no_answer false ∷ answers) = omega arith
gets-le-one (no_answer true ∷ answers) = omega arith
gets-le-one (rejected ∷ answers) = omega arith
gets-le-one (accepted id ∷ answers) = omega arith

-- The provider got the payload at most `n` times, and nothing else: not at all without the tenant, where
-- no row is written either; else at least once if this succeeded, and rows were added only then.
pub record Sent (n : ℕ) (p : Payload) (tenant_id : String) (rows : ℕ) (a b : Outbox)
    (r : Thrown (Unit {0})) : Type 0 where
  pub times : ℕ
  pub bounded : times ≤ n
  pub delivered : b.delivered ≡ a.delivered ++ copies times p
  pub absent :
      find_tenant_by_id tenant_id a.db.tenants ≡ none
      → (times ≡ 0) × (b.db.messages ≡ a.db.messages)
  pub known :
      (tenant : Tenant)
      → find_tenant_by_id tenant_id a.db.tenants ≡ some tenant
      → (if_ok r 1 ≤ times) × (length b.db.messages ≡ length a.db.messages + if_ok r rows)
  pub tenants : b.db.tenants ≡ a.db.tenants

if_ok-le : {A : Type 0} (r : Thrown A) → if_ok r 1 ≤ 1
if_ok-le (ok a) = omega arith
if_ok-le (thrown e) = omega arith

if_ok-zero : {A : Type 0} (r : Thrown A) (n : ℕ) → if_ok r 1 ≡ 0 → if_ok r n ≡ 0
if_ok-zero (ok a) n h = absurd (omega (arith, h))
if_ok-zero (thrown e) n h = refl

find_by_id-Found :
    (id : String) (db : Db)
    → ((find_by_id id db).1.messages ≡ db.messages)
      × ((find_by_id id db).1.tenants ≡ db.tenants)
      × (((find_by_id id db).0 ≡ thrown outage)
          ⊎ ((find_by_id id db).0 ≡ ok (find_tenant_by_id id db.tenants)))
unfolding find_by_id
find_by_id-Found id db = (ground arith, ground arith, ground arith)

module _ (now : ℕ) (is_sandbox : Bool) (job : OutboundJob) where
  abbrev pub SentBy : ℕ → Outbox → Thrown (Unit {0}) × Outbox → Type 0
  SentBy n a (r, b) = Sent n (payload_of is_sandbox job) (tenant_id_of job) (new_rows job) a b r

  abbrev pub tenant_in : Db → Option Tenant
  tenant_in db = find_tenant_by_id (tenant_id_of job) db.tenants

  then_persist-Sent :
      (a : Outbox) (t : Tenant) (r : Thrown String × Outbox)
      → tenant_in a.db ≡ some t
      → Posted (payload_of is_sandbox job) a a.answers r
      → SentBy 1 a (then_persist now job r)
  then_persist-Sent a t (thrown e, o) found (delivered, db, got) = record {
    times = gets a.answers;
    bounded = gets-le-one a.answers;
    delivered = delivered;
    absent = λ h. absurd (cc (h, found));
    known = λ tenant h. (omega arith, ground (arith, db));
    tenants = ap (λ (d : Db). d.tenants) db;
  }
  then_persist-Sent a t (ok id, o) found (delivered, db, inl failed) = absurd (cc failed)
  then_persist-Sent a t (ok id, o) found (delivered, db, inr got) =
      let (added, tenants) = persist-Adds now job id o.db in
      record {
        times = gets a.answers;
        bounded = gets-le-one a.answers;
        delivered = delivered;
        absent = λ h. absurd (cc (h, found));
        known = λ tenant h.
            (omega (arith, got, if_ok-le (persist now job id o.db).0), ground (arith, db, added));
        tenants = tenants ∙ ap (λ (d : Db). d.tenants) db;
      }

  send-Sent :
      (a : Outbox) (t : Tenant)
      → tenant_in a.db ≡ some t
      → SentBy 1 a (send_and_persist now is_sandbox job a)
  unfolding send_and_persist
  send-Sent a t found =
      let p = payload_of is_sandbox job in
      then_persist-Sent a t (post p a) found (post-Posted p a a.answers refl)

  -- Nothing was put and no row written.
  nothing-Sent :
      (a : Outbox) (db : Db) (r : Thrown (Unit {0}))
      → db.messages ≡ a.db.messages
      → db.tenants ≡ a.db.tenants
      → ((t : Tenant) → tenant_in a.db ≡ some t → if_ok r 1 ≡ 0)
      → SentBy 1 a (r, record a { db = db })
  nothing-Sent a db r messages tenants fails = record {
    times = 0;
    bounded = omega arith;
    delivered = sym (append-nil a.delivered);
    absent = λ h. (refl, messages);
    known = λ t h. (
      omega (arith, fails t h),
      ground (arith, messages, if_ok-zero r (new_rows job) (fails t h)),
    );
    tenants = tenants;
  }

  -- From the same outbox but for the calls to come.
  Sent-same :
      (a : Outbox) (db : Db) (n : ℕ) (r : Thrown (Unit {0})) (b : Outbox)
      → db.messages ≡ a.db.messages
      → db.tenants ≡ a.db.tenants
      → SentBy n (record a { db = db }) (r, b)
      → SentBy n a (r, b)
  Sent-same a db n r b messages tenants s =
      let here : tenant_in db ≡ tenant_in a.db =
        ap (find_tenant_by_id (tenant_id_of job)) tenants in
      record {
        times = s.times;
        bounded = s.bounded;
        delivered = s.delivered;
        absent = λ h. let (none_put, same) = s.absent (here ∙ h) in (none_put, same ∙ messages);
        known = λ t h.
            let (put, stored) = s.known t (here ∙ h) in (put, ground (arith, stored, messages));
        tenants = s.tenants ∙ tenants;
      }

  for_tenant-Sent :
      (decrypts : Tenant → Bool) (a : Outbox) (r : Thrown (Option Tenant) × Db)
      → (r.1.messages ≡ a.db.messages)
        × (r.1.tenants ≡ a.db.tenants)
        × ((r.0 ≡ thrown outage) ⊎ (r.0 ≡ ok (tenant_in a.db)))
      → SentBy 1 a (for_tenant now decrypts is_sandbox job a r)
  unfolding for_tenant
  for_tenant-Sent decrypts a (thrown e, db) (messages, tenants, found) =
      nothing-Sent a db (thrown e) messages tenants (λ t h. refl)
  for_tenant-Sent decrypts a (ok none, db) (messages, tenants, inl failed) = absurd (cc failed)
  for_tenant-Sent decrypts a (ok none, db) (messages, tenants, inr found) =
      let missing : none ≡ tenant_in a.db = cc found in
      nothing-Sent a db (ok tt) messages tenants (λ t h. absurd (cc (missing, h)))
  for_tenant-Sent decrypts a (ok (some t), db) (messages, tenants, inl failed) = absurd (cc failed)
  for_tenant-Sent decrypts a (ok (some t), db) (messages, tenants, inr found) =
      let known : some t ≡ tenant_in a.db = cc found in
      let here : tenant_in db ≡ some t =
        ap (find_tenant_by_id (tenant_id_of job)) tenants ∙ sym known in
      elim (Bool-cases (decrypts t)) [
        | inl e ↦
            let r = send_and_persist now is_sandbox job (record a { db = db }) in
            rw e
              (Sent-same a db 1 r.0 r.1 messages tenants (send-Sent (record a { db = db }) t here))
        | inr e ↦ rw e (nothing-Sent a db (thrown outage) messages tenants (λ t' h. refl))
      ]

  pub process-Sent :
      (decrypts : Tenant → Bool) (a : Outbox) → SentBy 1 a (process now decrypts is_sandbox job a)
  unfolding process
  process-Sent decrypts a =
      for_tenant-Sent decrypts a (find_by_id (tenant_id_of job) a.db)
        (find_by_id-Found (tenant_id_of job) a.db)
