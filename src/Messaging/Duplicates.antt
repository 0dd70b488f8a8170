-- ===== src/Messaging/Duplicates.antt =====
-- A message that the provider got, but that was not stored, is put again.
use inmoagent.Prelude.{
  ℕ, suc, String, Bool, true, false, ◌+◌, ◌-◌, ◌≡◌, sym, ◌∙◌, ap, none, some, List, [], ◌∷◌, ◌++◌,
  arith,
}
use inmoagent.Webhook.Store.{
  Units, Tenant, Call, Thrown, ok, thrown, outage, find_or_create_by_phone,
}
use inmoagent.Messaging.Graph.{Answer, accepted, outcome_of}
use inmoagent.Messaging.{
  OutboundJob, text_job, Outbox, payload_of, find_tenant_by_id, find_by_id, post, persist,
  store_sent, send_and_persist, for_tenant, process, run_job, attempts,
}
use mathlib.Core.List.{append_assoc}
use inmoagent.Messaging.Rows.{if_ok}
use inmoagent.Messaging.Sent.{copies}
use inmoagent.Messaging.Attempts.{run_thrown, run_job-SentBy}

module _ (now : ℕ) (decrypts : Tenant → Bool) (is_sandbox : Bool) (tenant_id to : String)
    (body : Units) (o : Outbox) (tenant : Tenant) (first second : Call) (calls : List Call)
    (wa : String) (answers : List Answer) where
  abbrev job : OutboundJob
  job = text_job tenant_id to body none

  -- The attempt puts the text, and fails when it looks for the lead.
  put_unstored :
      find_tenant_by_id tenant_id o.db.tenants ≡ some tenant
      → decrypts tenant ≡ true
      → o.db.calls ≡ first ∷ second ∷ calls
      → first.fails ≡ false
      → second.fails ≡ true
      → o.answers ≡ accepted (some wa) ∷ answers
      → process now decrypts is_sandbox job o ≡ (
        thrown outage,
        record {
          db = record (o.db) { calls = calls };
          delivered = o.delivered ++ payload_of is_sandbox job ∷ [];
          answers = answers;
        },
      )
  unfolding process for_tenant find_by_id send_and_persist post outcome_of persist store_sent
      find_or_create_by_phone
  put_unstored found readable shape works fails answer =
      ground (arith, found, readable, shape, works, fails, answer)

  -- A text of the bot whose first attempt puts it to the provider, but fails before the row is stored,
  -- is put at least twice if the job succeeds in the end.
  pub run_job-twice :
      {u : Unit {0}}
      → find_tenant_by_id tenant_id o.db.tenants ≡ some tenant
      → decrypts tenant ≡ true
      → o.db.calls ≡ first ∷ second ∷ calls
      → first.fails ≡ false
      → second.fails ≡ true
      → o.answers ≡ accepted (some wa) ∷ answers
      → (run_job now decrypts is_sandbox attempts job o).0 ≡ ok u
      → (more : ℕ) × ((run_job now decrypts is_sandbox attempts job o).1.delivered
          ≡ o.delivered ++ copies (2 + more) (payload_of is_sandbox job))
  run_job-twice found readable shape works fails answer succeeds =
      let p = payload_of is_sandbox job in
      let o' : Outbox = record {
        db = record (o.db) { calls = calls };
        delivered = o.delivered ++ p ∷ [];
        answers = answers;
      } in
      let again = run_job now decrypts is_sandbox 4 job o' in
      let thrown_first = put_unstored found readable shape works fails answer in
      let e : run_job now decrypts is_sandbox attempts job o ≡ again =
        run_thrown now is_sandbox job decrypts 4 o o' outage thrown_first in
      let s = run_job-SentBy now is_sandbox job decrypts 4 o' in
      let (put, stored) = s.known tenant found in
      let ok_again : if_ok again.0 1 ≡ 1 =
        ap (λ (r : Thrown (Unit {0}) × Outbox). if_ok r.0 1) (sym e)
        ∙ ap (λ (r : Thrown (Unit {0})). if_ok r 1) succeeds in
      let two : suc (suc (s.times - 1)) ≡ 2 + (s.times - 1) = omega arith in
      let count : s.times ≡ suc (s.times - 1) = omega (arith, put, ok_again) in
      (
        s.times - 1,
        ap (λ (r : Thrown (Unit {0}) × Outbox). r.1.delivered) e
            ∙ s.delivered
            ∙ append_assoc o.delivered (p ∷ []) (copies s.times p)
            ∙ ap (λ (k : ℕ). o.delivered ++ p ∷ copies k p) count
            ∙ ap (λ (k : ℕ). o.delivered ++ copies k p) two,
      )
