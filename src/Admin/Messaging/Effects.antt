-- ===== src/Admin/Messaging/Effects.antt =====
-- What a manual message leaves behind, on every path.
use inmoagent.Prelude.{
  String, true, false, not, none, some, List, [], ◌∷◌, ◌++◌, str_eq, filter, ◌≡◌, ◌≢◌, ◌⊎◌, inl,
  inr, refl, All, arith, Bool-cases, Option-cases, ap, eq_iff,
}
use inmoagent.Domain.Lead.{Lead, human_handoff, opted_out, is_opted_out}
use inmoagent.Pipeline.Store.{Store, Services, IsDocumented}
use inmoagent.Pipeline.Documented.{documented, for_documented}
use inmoagent.Admin.Messaging.{
  is_service_window_open, ManualMessage, Desk, Refusal, lead_not_found, lead_opted_out,
  service_window_closed, tenant_not_found, lead_locked, bad_gateway, SendResult, sent, refused,
  Send, delete_message_compensating, write_message, queue_message, write_and_queue, send_locked,
  send_manual,
}

-- The rows of other messages have other ids.
abbrev pub IsFresh : String → List ManualMessage → Type 0
IsFresh id messages = All (λ (m : ManualMessage). str_eq m.id id ≡ false) messages

abbrev pub Untouched : Desk → Desk → Desk → Type 0
Untouched d d₁ d' = (d' ≡ d) ⊎ (d' ≡ d₁)

-- `d` is the desk at the request, `d₁` at the transaction and `d'` in the end.
abbrev pub Leaves : Send → String → Desk → Desk → SendResult → Desk → Type 0
Leaves send phone d d₁ (sent m lead') d' =
    (lead : Lead) × (d₁.lead ≡ some lead)
    × (lead.state ≢ opted_out)
    × (lead' ≡ record lead { state = human_handoff; handoff_at = some send.now })
    × (d' ≡ record {
      lead = some lead';
      messages = d₁.messages ++ m ∷ [];
      jobs = d₁.jobs ++ (record { phone = phone; body = send.text; message_id = m.id }) ∷ [];
    })
Leaves send phone d d₁ (refused bad_gateway) d' =
    (lead : Lead) × (d₁.lead ≡ some lead)
    × (d'.lead ≡ some (record lead { state = human_handoff; handoff_at = some send.now }))
    × (d'.jobs ≡ d₁.jobs)
    × (send.is_deleted ≡ true → d'.messages ≡ d₁.messages)
Leaves send phone d d₁ (refused _) d' = Untouched d d₁ d'

filter-fresh :
    (id : String) (m : ManualMessage) (messages : List ManualMessage)
    → str_eq m.id id ≡ true
    → IsFresh id messages
    → filter (λ (x : ManualMessage). not (str_eq x.id id)) (messages ++ m ∷ []) ≡ messages
filter-fresh id m [] same h = rw same
filter-fresh id m (x ∷ messages) same h =
    rw h.0 (ap (λ (l : List ManualMessage). x ∷ l) (filter-fresh id m messages same h.1))

-- the part behind the checks, at the desk `d₁` of the transaction
module _ (send : Send) (phone : String) (d d₁ : Desk) where
  message : ManualMessage
  message = record { id = send.new_id; body = send.text; sent_by_person_id = send.person_id }

  handed : Lead → Lead
  handed lead = record lead { state = human_handoff; handoff_at = some send.now }

  written : Lead → Desk
  written lead = record d₁ { lead = some (handed lead); messages = d₁.messages ++ message ∷ [] }

  write_message-active :
      (lead : Lead)
      → d₁.lead ≡ some lead
      → is_opted_out lead.state ≡ false
      → write_message send d₁ ≡ (sent message (handed lead), written lead)
  unfolding write_message written message handed
  write_message-active lead e active = rw (e, active)

  write_message-opted_out :
      (lead : Lead)
      → d₁.lead ≡ some lead
      → is_opted_out lead.state ≡ true
      → write_message send d₁ ≡ (refused lead_opted_out, d₁)
  unfolding write_message
  write_message-opted_out lead e out = rw (e, out)

  write_message-missing : d₁.lead ≡ none → write_message send d₁ ≡ (refused lead_opted_out, d₁)
  unfolding write_message
  write_message-missing e = rw e

  queue_message-Leaves :
      (lead : Lead)
      → d₁.lead ≡ some lead
      → lead.state ≢ opted_out
      → str_eq send.new_id send.new_id ≡ true
      → IsFresh send.new_id d₁.messages
      → let (result, d') = queue_message send phone (sent message (handed lead), written lead) in
        Leaves send phone d d₁ result d'
  unfolding queue_message written message handed delete_message_compensating
  queue_message-Leaves lead e active same fresh = elim (Bool-cases send.is_queued) [
    | inl q ↦ rw q (lead, e, active, refl, refl)
    | inr q ↦ elim (Bool-cases send.is_deleted) [
      | inl x ↦
          rw q (
            rw x
              (lead, e, refl, refl, λ _. filter-fresh send.new_id message d₁.messages same fresh))
      | inr x ↦ rw q (rw x (lead, e, refl, refl, λ y. absurd (cc (y))))
    ]
  ]

  queue_written-Leaves :
      str_eq send.new_id send.new_id ≡ true
      → IsFresh send.new_id d₁.messages
      → let (result, d') = queue_message send phone (write_message send d₁) in
        Leaves send phone d d₁ result d'
  unfolding queue_message
  queue_written-Leaves same fresh = elim (Option-cases d₁.lead) [
    | inl e ↦ rw (write_message-missing e) (inr refl)
    | inr (lead, e) ↦ elim (Bool-cases (is_opted_out lead.state)) [
      | inl out ↦ rw (write_message-opted_out lead e out) (inr refl)
      | inr active ↦
          rw (write_message-active lead e active)
            (queue_message-Leaves lead e (ground (arith, active)) same fresh)
    ]
  ]

same_id : (id : String) → str_eq id id ≡ true
same_id id = (eq_iff id id).1 refl

module _ (send : Send) (phone : String) (d : Desk)
    (fresh : IsFresh send.new_id (send.before_tx d).messages) where
  -- the desk and the store that a result leaves
  abbrev Ends : Store → SendResult × Desk × Store → Type 0
  Ends store (result, d', store') =
      Leaves send phone d (send.before_tx d) result d' × (store' ≡ store)

  locked_out :
      (store : Store) → store.lock ≡ true → Ends store (send_locked documented send phone store d)
  unfolding send_locked
  locked_out store taken = rw taken (inl refl, refl)

  let_in :
      (store : Store) → store.lock ≡ false → Ends store (send_locked documented send phone store d)
  unfolding send_locked write_and_queue
  let_in store free =
      rw free
        (queue_written-Leaves send phone d (send.before_tx d) (same_id send.new_id) fresh, refl)

  after_checks : (store : Store) → Ends store (send_locked documented send phone store d)
  after_checks store = elim (Bool-cases store.lock) [
    | inl taken ↦ locked_out store taken
    | inr free ↦ let_in store free
  ]

-- the requests that are refused before the lock, and those that reach it
send_manual_cases :
    (send : Send) (store : Store) (d : Desk) (lead : Lead)
    → d.lead ≡ some lead
    → ((e : Refusal) × (e ≢ bad_gateway)
        × (send_manual documented send store d ≡ (refused e, d, store)))
      ⊎ (send_manual documented send store d ≡ send_locked documented send lead.phone store d)
unfolding send_manual
send_manual_cases send store d lead there = elim (Bool-cases (is_opted_out lead.state)) [
  | inl out ↦ inl (lead_opted_out, λ q. cc q, ground (arith, there, out))
  | inr active ↦ elim (Bool-cases (is_service_window_open send.last_inbound_at send.now)) [
    | inr shut ↦ inl (service_window_closed, λ q. cc q, ground (arith, there, active, shut))
    | inl open_window ↦ elim (Option-cases send.tenant) [
      | inl unknown ↦
          inl (tenant_not_found, λ q. cc q, ground (arith, there, active, open_window, unknown))
      | inr (tenant, known) ↦ inr (ground (arith, there, active, open_window, known))
    ]
  ]
]

refused_early :
    (send : Send) (phone : String) (d d₁ : Desk) (e : Refusal)
    → e ≢ bad_gateway
    → Leaves send phone d d₁ (refused e) d
refused_early send phone d d₁ lead_not_found ne = inl refl
refused_early send phone d d₁ lead_opted_out ne = inl refl
refused_early send phone d d₁ service_window_closed ne = inl refl
refused_early send phone d d₁ tenant_not_found ne = inl refl
refused_early send phone d d₁ lead_locked ne = inl refl
refused_early send phone d d₁ bad_gateway ne = absurd (ne refl)

-- A message that a person sends either is stored once and queued once, with the same id, to a lead
-- that had not opted out when it was stored and that is handed over to people by that; or is
-- refused, and then nothing is written, but for one case: where the queue fails, the message is
-- deleted again if that does not fail too, but the lead stays handed over. In each case the lead's
-- lock is as it was before.
pub send_manual-Leaves :
    (svc : Services) (doc : IsDocumented svc) (send : Send) (store : Store) (d : Desk) (lead : Lead)
    → d.lead ≡ some lead
    → IsFresh send.new_id (send.before_tx d).messages
    → let (result, d', store') = send_manual svc send store d in
      Leaves send lead.phone d (send.before_tx d) result d' × (store' ≡ store)
send_manual-Leaves svc doc send store d lead there fresh =
    for_documented doc Sends (elim (send_manual_cases send store d lead there) [
      | inl (e, ne, early) ↦
          rw early (refused_early send lead.phone d (send.before_tx d) e ne, refl)
      | inr reached ↦ rw reached (after_checks send lead.phone d fresh store)
    ])
  where
    Sends : Services → Type 0
    Sends svc =
        let (result, d', store') = send_manual svc send store d in
        Leaves send lead.phone d (send.before_tx d) result d' × (store' ≡ store)
