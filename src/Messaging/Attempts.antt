-- ===== src/Messaging/Attempts.antt =====
-- How often a message is sent, and how often it is stored.
use inmoagent.Prelude.{ℕ, zero, suc, ◌+◌, Bool, ◌≡◌, refl, sym, ◌∙◌, ap, List, ◌∷◌, ◌++◌, arith}
use mathlib.Core.List.{append_assoc, append-nil}
use inmoagent.Webhook.Store.{Tenant, Thrown, ok, thrown, Error}
use inmoagent.Messaging.Graph.{Payload}
use inmoagent.Messaging.{
  OutboundJob, Outbox, payload_of, find_tenant_by_id, tenant_id_of, process, run_job, attempts,
}
use inmoagent.Messaging.Rows.{new_rows}
use inmoagent.Messaging.Sent.{copies, Sent, SentBy, tenant_in, process-Sent}

module _ (now : ℕ) (is_sandbox : Bool) (job : OutboundJob) where
  copies-add : (m n : ℕ) (p : Payload) → copies m p ++ copies n p ≡ copies (m + n) p
  copies-add zero n p = ap (λ (k : ℕ). copies k p) (omega arith)
  copies-add (suc m) n p =
      let sum : suc (m + n) ≡ suc m + n = omega arith in
      ap (λ (l : List Payload). p ∷ l) (copies-add m n p) ∙ ap (λ (k : ℕ). copies k p) sum

  -- An attempt that threw, and the rest.
  then-Sent :
      (n : ℕ) (e : Error) (a b c : Outbox) (r : Thrown (Unit {0}))
      → SentBy now is_sandbox job 1 a (thrown e, b)
      → SentBy now is_sandbox job n b (r, c)
      → SentBy now is_sandbox job (suc n) a (r, c)
  then-Sent n e a b c r s s' =
      let here : tenant_in now is_sandbox job b.db ≡ tenant_in now is_sandbox job a.db =
        ap (find_tenant_by_id (tenant_id_of job)) s.tenants in
      let p = payload_of is_sandbox job in
      record {
        times = s.times + s'.times;
        bounded = omega (arith, s.bounded, s'.bounded);
        delivered =
            s'.delivered
            ∙ ap (λ (l : List Payload). l ++ copies s'.times p) s.delivered
            ∙ append_assoc a.delivered (copies s.times p) (copies s'.times p)
            ∙ ap (λ (l : List Payload). a.delivered ++ l) (copies-add s.times s'.times p);
        absent = λ h.
            let (zero₁, same₁) = s.absent h in
            let (zero₂, same₂) = s'.absent (here ∙ h) in
            (omega (arith, zero₁, zero₂), same₂ ∙ same₁);
        known = λ t h.
            let (put₁, stored₁) = s.known t h in
            let (put₂, stored₂) = s'.known t (here ∙ h) in
            (omega (arith, put₂), omega (arith, stored₁, stored₂));
        tenants = s'.tenants ∙ s.tenants;
      }

  module _ (decrypts : Tenant → Bool) (n : ℕ) (a b : Outbox) where
    run_ok :
        (u : Unit {0})
        → process now decrypts is_sandbox job a ≡ (ok u, b)
        → run_job now decrypts is_sandbox (suc n) job a ≡ (ok tt, b)
    unfolding run_job
    run_ok u h = ground (arith, h)

    pub run_thrown :
        (e : Error)
        → process now decrypts is_sandbox job a ≡ (thrown e, b)
        → run_job now decrypts is_sandbox (suc n) job a ≡ run_job now decrypts is_sandbox n job b
    unfolding run_job
    run_thrown e h = ground (arith, h)

  run_step :
      (decrypts : Tenant → Bool) (n : ℕ) (a : Outbox) (first : Thrown (Unit {0}) × Outbox)
      → process now decrypts is_sandbox job a ≡ first
      → SentBy now is_sandbox job 1 a first
      → SentBy now is_sandbox job n first.1 (run_job now decrypts is_sandbox n job first.1)
      → SentBy now is_sandbox job (suc n) a (run_job now decrypts is_sandbox (suc n) job a)
  run_step decrypts n a (ok u, b) e s rest = rw (run_ok decrypts n a b u e) (record {
    times = s.times;
    bounded = omega (arith, s.bounded);
    delivered = s.delivered;
    absent = s.absent;
    known = s.known;
    tenants = s.tenants;
  })
  run_step decrypts n a (thrown x, b) e s rest =
      let again = run_job now decrypts is_sandbox n job b in
      rw (run_thrown decrypts n a b x e) (then-Sent n x a b again.1 again.0 s rest)

  pub run_job-SentBy :
      (decrypts : Tenant → Bool) (n : ℕ) (a : Outbox)
      → SentBy now is_sandbox job n a (run_job now decrypts is_sandbox n job a)
  unfolding run_job
  run_job-SentBy decrypts zero a = record {
    times = 0;
    bounded = omega arith;
    delivered = sym (append-nil a.delivered);
    absent = λ h. (refl, refl);
    known = λ t h. (omega arith, omega arith);
    tenants = refl;
  }
  run_job-SentBy decrypts (suc n) a =
      let first = process now decrypts is_sandbox job a in
      run_step decrypts n a first refl (process-Sent now is_sandbox job decrypts a)
        (run_job-SentBy decrypts n first.1)

-- A job of the queue puts its message, and no other, to the provider at most five times. It does not do
-- so, and writes no row, where the tenant is not known; else it does at least once if it succeeds, and a
-- row is added only if it succeeds: one for what the bot sends, none for what was stored before.
pub run_job-Sent :
    (now : ℕ) (decrypts : Tenant → Bool) (is_sandbox : Bool) (job : OutboundJob) (o : Outbox)
    → let (r, after) = run_job now decrypts is_sandbox attempts job o in
      Sent 5 (payload_of is_sandbox job) (tenant_id_of job) (new_rows job) o after r
run_job-Sent now decrypts is_sandbox job o = run_job-SentBy now is_sandbox job decrypts attempts o
