-- ===== src/Webhook/Once.antt =====
-- A message is stored once and queued once, however often it is delivered.
use inmoagent.Prelude.{
  ℕ, String, Bool, false, ◌||◌, ◌≡◌, refl, ◌∙◌, ◌⊎◌, inl, inr, Option, none, some, List, [], ◌∷◌,
  ◌++◌, arith, Bool-cases, str_eq, eq_iff,
}
use inmoagent.Webhook.Store.{
  MessageRow, Job, Status, Db, has_wa_id, is_wa_id, has_message, breaks_key, with_status,
}
use inmoagent.Webhook.{Value}
use inmoagent.Webhook.Steps.{Handled, ignored, recorded, stored, queued}
use inmoagent.Webhook.Deliveries.{Marked, unmarked, marked, handle_payloads, handle_payloads-closed}

abbrev pub HasOwnKeys : List MessageRow → Type 0
HasOwnKeys [] = Unit
HasOwnKeys (m ∷ messages) = (breaks_key m messages ≡ false) × HasOwnKeys messages

-- The jobs are, in this order, jobs of some of the messages, one for each of these at most.
abbrev pub AreOf : List Job → List MessageRow → Type 0
AreOf jobs [] = jobs ≡ []
AreOf [] (m ∷ messages) = Unit
AreOf (job ∷ jobs) (m ∷ messages) =
    ((job.message_id ≡ m.id) × AreOf jobs messages) ⊎ AreOf (job ∷ jobs) messages

-- One message's keys are another's.
abbrev wa_clash : Option String → Option String → Bool
wa_clash a none = false
wa_clash a (some w) = is_wa_id w a

abbrev clash : MessageRow → MessageRow → Bool
clash n m = str_eq n.id m.id || wa_clash n.wa_message_id m.wa_message_id

clash_cons :
    (m n : MessageRow) (messages : List MessageRow)
    → breaks_key m (n ∷ messages) ≡ false
    → (clash n m ≡ false) × (breaks_key m messages ≡ false)
unfolding breaks_key has_message has_wa_id
clash_cons m n messages h = (ground (arith, h), ground (arith, h))

wa_clash_sym : (a b : Option String) → wa_clash a b ≡ false → wa_clash b a ≡ false
wa_clash_sym none none h = refl
wa_clash_sym none (some w) h = refl
wa_clash_sym (some v) none h = refl
wa_clash_sym (some v) (some w) h = ground (arith, h, eq_iff v w, eq_iff w v)

clash_sym : (m n : MessageRow) → clash n m ≡ false → clash m n ≡ false
clash_sym m n h =
    ground
      (arith, h, eq_iff n.id m.id, eq_iff m.id n.id, wa_clash_sym n.wa_message_id m.wa_message_id)

breaks_key-append :
    (n m : MessageRow) (messages : List MessageRow)
    → breaks_key n messages ≡ false
    → clash m n ≡ false
    → breaks_key n (messages ++ m ∷ []) ≡ false
unfolding breaks_key has_message has_wa_id
breaks_key-append n m [] h other = ground (arith, other)
breaks_key-append n m (k ∷ messages) h other =
    ground (arith, h, other, breaks_key-append n m messages)

HasOwnKeys-append :
    (messages : List MessageRow) (m : MessageRow)
    → HasOwnKeys messages
    → breaks_key m messages ≡ false
    → HasOwnKeys (messages ++ m ∷ [])
unfolding breaks_key
HasOwnKeys-append [] m d h = (h, tt)
HasOwnKeys-append (n ∷ messages) m d h =
    let (other, rest) = clash_cons m n messages h in
    (
      breaks_key-append n m messages d.0 (clash_sym m n other),
      HasOwnKeys-append messages m d.1 rest,
    )

breaks_key-status :
    (n : MessageRow) (id : String) (status : Status) (messages : List MessageRow)
    → breaks_key n (with_status id status messages) ≡ breaks_key n messages
unfolding breaks_key has_message has_wa_id with_status
breaks_key-status n id status [] = refl
breaks_key-status n id status (m ∷ messages) =
    ground (arith, breaks_key-status n id status messages)

HasOwnKeys-status :
    (id : String) (status : Status) (messages : List MessageRow)
    → HasOwnKeys messages
    → HasOwnKeys (with_status id status messages)
unfolding with_status breaks_key
HasOwnKeys-status id status [] d = tt
HasOwnKeys-status id status (m ∷ messages) d = elim (Bool-cases (str_eq m.id id)) [
  | inl e ↦
      rw e (breaks_key-status m id status messages ∙ d.0, HasOwnKeys-status id status messages d.1)
  | inr e ↦
      rw e (breaks_key-status m id status messages ∙ d.0, HasOwnKeys-status id status messages d.1)
]

AreOf-status :
    (id : String) (status : Status) (jobs : List Job) (messages : List MessageRow)
    → AreOf jobs messages
    → AreOf jobs (with_status id status messages)
unfolding with_status
AreOf-status id status jobs [] h = h
AreOf-status id status [] (m ∷ messages) h = tt
AreOf-status id status (job ∷ jobs) (m ∷ messages) (inl (same, rest)) =
    inl (ground (arith, same), AreOf-status id status jobs messages rest)
AreOf-status id status (job ∷ jobs) (m ∷ messages) (inr later) =
    inr (AreOf-status id status (job ∷ jobs) messages later)

AreOf-stored :
    (jobs : List Job) (messages : List MessageRow) (m : MessageRow)
    → AreOf jobs messages
    → AreOf jobs (messages ++ m ∷ [])
AreOf-stored [] [] m h = tt
AreOf-stored (job ∷ jobs) [] m h = absurd (cc h)
AreOf-stored [] (n ∷ messages) m h = tt
AreOf-stored (job ∷ jobs) (n ∷ messages) m (inl (same, rest)) =
    inl (same, AreOf-stored jobs messages m rest)
AreOf-stored (job ∷ jobs) (n ∷ messages) m (inr later) =
    inr (AreOf-stored (job ∷ jobs) messages m later)

AreOf-nil : (messages : List MessageRow) → AreOf [] messages
AreOf-nil [] = refl
AreOf-nil (m ∷ messages) = tt

AreOf-queued :
    (jobs : List Job) (messages : List MessageRow) (job : Job) (m : MessageRow)
    → job.message_id ≡ m.id
    → AreOf jobs messages
    → AreOf (jobs ++ job ∷ []) (messages ++ m ∷ [])
AreOf-queued [] [] job m same h = inl (same, refl)
AreOf-queued (k ∷ jobs) [] job m same h = absurd (cc h)
AreOf-queued [] (n ∷ messages) job m same h =
    inr (AreOf-queued [] messages job m same (AreOf-nil messages))
AreOf-queued (k ∷ jobs) (n ∷ messages) job m same (inl (this, rest)) =
    inl (this, AreOf-queued jobs messages job m same rest)
AreOf-queued (k ∷ jobs) (n ∷ messages) job m same (inr later) =
    inr (AreOf-queued (k ∷ jobs) messages job m same later)

-- No two messages share a key, and the jobs are jobs of some of them, one for each at most.
abbrev pub IsOnce : Db → Type 0
IsOnce db = HasOwnKeys db.messages × AreOf db.jobs db.messages

IsOnce-status : (a b : Db) → Marked a b → IsOnce a → IsOnce b
IsOnce-status a b (unmarked e m j) h = rw (m, j) h
IsOnce-status a b (marked id status e m j) (keys, jobs) =
    rw (m, j)
      (HasOwnKeys-status id status a.messages keys, AreOf-status id status a.jobs a.messages jobs)

IsOnce-message : (w : String) (a b : Db) → Handled w a b → IsOnce a → IsOnce b
IsOnce-message w a b (ignored e m j) h = rw (m, j) h
IsOnce-message w a b (recorded fresh e m j) h = rw (m, j) h
IsOnce-message w a b (stored row wa free fresh e m j) (keys, jobs) =
    rw (m, j) (HasOwnKeys-append a.messages row keys free, AreOf-stored a.jobs a.messages row jobs)
IsOnce-message w a b (queued row job wa free of_row fresh e m j) (keys, jobs) =
    rw (m, j)
      (
        HasOwnKeys-append a.messages row keys free,
        AreOf-queued a.jobs a.messages job row of_row jobs,
      )

-- However often what is delivered, and whichever calls fail: no two stored messages have the same
-- provider's id, and each is queued at most once, in the order in which they were stored.
pub handle_payloads-IsOnce :
    (payloads : List (ℕ × List Value)) (db : Db) → IsOnce db → IsOnce (handle_payloads payloads db)
handle_payloads-IsOnce payloads db =
    handle_payloads-closed IsOnce (λ w a b. IsOnce-message w a b) (λ a b. IsOnce-status a b)
      payloads db
