-- ===== src/Webhook/Lost.antt =====
-- A message that was recorded as seen, but not stored, is lost.
use inmoagent.Prelude.{
  ℕ, String, true, false, ◌≡◌, refl, ◌∙◌, ap, inl, inr, some, List, [], ◌∷◌, ◌++◌, arith,
  Bool-cases, str_eq, eq_iff,
}
use inmoagent.Webhook.Store.{
  Tenant, Call, record_webhook_event, create_event, find_or_create_by_phone, MessageRow, Status, Db,
  has_event, has_wa_id, is_wa_id, with_status,
}
use inmoagent.Webhook.{Value, MetaMessage, accept, handle_message}
use inmoagent.Webhook.Steps.{Handled, ignored, recorded, stored, queued}
use inmoagent.Webhook.Deliveries.{Marked, unmarked, marked, handle_payloads, handle_payloads-closed}

-- The event was recorded, and no message of it is stored.
abbrev pub IsLost : String → Db → Type 0
IsLost w db = (has_event w db.events ≡ true) × (has_wa_id w db.messages ≡ false)

has_wa_id-status :
    (w id : String) (status : Status) (messages : List MessageRow)
    → has_wa_id w (with_status id status messages) ≡ has_wa_id w messages
unfolding has_wa_id with_status
has_wa_id-status w id status [] = refl
has_wa_id-status w id status (m ∷ messages) = ground (arith, has_wa_id-status w id status messages)

has_wa_id-append :
    (w : String) (messages : List MessageRow) (m : MessageRow)
    → has_wa_id w messages ≡ false
    → is_wa_id w m.wa_message_id ≡ false
    → has_wa_id w (messages ++ m ∷ []) ≡ false
unfolding has_wa_id
has_wa_id-append w [] m h other = rw other refl
has_wa_id-append w (n ∷ messages) m h other = ground (arith, h, has_wa_id-append w messages m)

IsLost-status : (w : String) (a b : Db) → Marked a b → IsLost w a → IsLost w b
IsLost-status w a b (unmarked e m j) h = rw (e, m) h
IsLost-status w a b (marked id status e m j) (recorded_w, absent) =
    rw (e, m) (recorded_w, has_wa_id-status w id status a.messages ∙ absent)

other_wa :
    (w v : String) (events : List String) (row : MessageRow)
    → has_event w events ≡ true
    → has_event v events ≡ false
    → row.wa_message_id ≡ some v
    → is_wa_id w row.wa_message_id ≡ false
other_wa w v events row known fresh wa = elim (Bool-cases (str_eq v w)) [
  | inl e ↦ absurd (cc (known, fresh, ap (λ (x : String). has_event x events) ((eq_iff v w).0 e)))
  | inr e ↦ rw wa e
]

has_event-cons :
    (w v : String) (events : List String)
    → has_event w events ≡ true
    → has_event w (v ∷ events) ≡ true
unfolding has_event
has_event-cons w v events h = ground (arith, h)

stored-IsLost :
    (w v : String) (a b : Db) (row : MessageRow)
    → row.wa_message_id ≡ some v
    → has_event v a.events ≡ false
    → b.events ≡ v ∷ a.events
    → b.messages ≡ a.messages ++ row ∷ []
    → IsLost w a
    → IsLost w b
stored-IsLost w v a b row wa fresh e m (known, absent) =
    rw (e, m)
      (
        has_event-cons w v a.events known,
        has_wa_id-append w a.messages row absent (other_wa w v a.events row known fresh wa),
      )

IsLost-message : (w v : String) (a b : Db) → Handled v a b → IsLost w a → IsLost w b
IsLost-message w v a b (ignored e m j) h = rw (e, m) h
IsLost-message w v a b (recorded fresh e m j) h = rw (e, m) (has_event-cons w v a.events h.0, h.1)
IsLost-message w v a b (stored row wa free fresh e m j) h = stored-IsLost w v a b row wa fresh e m h
IsLost-message w v a b (queued row job wa free of_row fresh e m j) h =
    stored-IsLost w v a b row wa fresh e m h

-- A message whose event was recorded, but which was not stored, is never stored, however often it is
-- delivered again.
pub handle_payloads-IsLost :
    (w : String) (payloads : List (ℕ × List Value)) (db : Db)
    → IsLost w db
    → IsLost w (handle_payloads payloads db)
handle_payloads-IsLost w payloads db =
    handle_payloads-closed (IsLost w) (λ v a b. IsLost-message w v a b) (λ a b. IsLost-status w a b)
      payloads db

event_only :
    (now : ℕ) (tenant : Tenant) (message : MetaMessage) (db : Db) (first second : Call)
    (calls : List Call)
    → db.calls ≡ first ∷ second ∷ calls
    → first.fails ≡ false
    → second.fails ≡ true
    → has_event message.id db.events ≡ false
    → ((handle_message now tenant message db).1.events ≡ message.id ∷ db.events)
      × ((handle_message now tenant message db).1.messages ≡ db.messages)
unfolding handle_message record_webhook_event create_event accept find_or_create_by_phone
event_only now tenant message db first second calls shape works fails new =
    (ground (arith, shape, works, fails, new), ground (arith, shape, works, fails, new))

has_event_self : (w : String) (events : List String) → has_event w (w ∷ events) ≡ true
unfolding has_event
has_event_self w events = ground (arith, eq_iff w w)

-- Where a message comes for the first time, and the event is recorded but the next call fails, the
-- message is lost: it is not stored then, nor by any later delivery, however many there are of it.
pub handle_message-lost :
    (now : ℕ) (tenant : Tenant) (message : MetaMessage) (db : Db) (first second : Call)
    (calls : List Call) (payloads : List (ℕ × List Value))
    → db.calls ≡ first ∷ second ∷ calls
    → first.fails ≡ false
    → second.fails ≡ true
    → has_event message.id db.events ≡ false
    → has_wa_id message.id db.messages ≡ false
    → has_wa_id message.id
        (handle_payloads payloads (handle_message now tenant message db).1).messages
      ≡ false
handle_message-lost now tenant message db first second calls payloads shape works fails new absent =
    let (events, messages) =
      event_only now tenant message db first second calls shape works fails new in
    (handle_payloads-IsLost message.id payloads (handle_message now tenant message db).1
      (rw events (has_event_self message.id db.events), rw messages absent)).1
