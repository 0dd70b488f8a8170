-- ===== src/Pipeline/Processor.antt =====
-- src/pipeline/inbound.processor.ts: a stored message is buffered, and a flush becomes a turn.
use inmoagent.Prelude.{
  ℕ, String, Bool, true, false, ◌||◌, List, [], ◌∷◌, ◌++◌, Option, none, some, map, trim, is_empty,
  if◌then◌else◌, or_value,
}
use inmoagent.Domain.Lead.{Lead, Tenant, is_opted_out, is_human_handoff}
use inmoagent.Conversation.World.{Env, World}
use inmoagent.Conversation.Engine.{handle_turn}
use inmoagent.Pipeline.Store.{DebounceEntry, Store, Services}
use inmoagent.Pipeline.Debounce.{push, try_flush}

pub data MessageType : Type 0 where
  text audio image document template unsupported : MessageType

pub record Message : Type 0 where
  pub id : String
  pub body : Option (List ℕ)
  pub type : MessageType
  pub created_at : ℕ

-- the name of the enumeration's value
unfoldable pub type_name : MessageType → String
type_name text = "TEXT"
type_name audio = "AUDIO"
type_name image = "IMAGE"
type_name document = "DOCUMENT"
type_name template = "TEMPLATE"
type_name unsupported = "UNSUPPORTED"

abbrev pub is_unsupported : MessageType → Bool
is_unsupported unsupported = true
is_unsupported _ = false

unfoldable pub is_silenced : Lead → Bool
is_silenced lead = is_opted_out lead.state || is_human_handoff lead.state

-- The phones that the fixed answer goes to.
unfoldable pub respond_unsupported : Option Tenant → Option Lead → List String
respond_unsupported none lead = []
respond_unsupported (some tenant) none = []
respond_unsupported (some tenant) (some lead) = if is_silenced lead then [] else lead.phone ∷ []

-- `message`, `tenant` and `lead` are what the database has for the job's ids.
unfoldable pub handle_message :
    Services → ℕ → ℕ → Option Message → Option Tenant → Option Lead → Store → List String × Store
handle_message svc debounce_ms now none tenant lead s = ([], s)
handle_message svc debounce_ms now (some message) tenant lead s =
    if is_unsupported message.type then (respond_unsupported tenant lead, s) else (
      [],
      push svc debounce_ms now
          (record {
            message_id = message.id;
            body = or_value message.body [];
            type = type_name message.type;
            created_at = message.created_at;
          })
          s,
    )

-- `join(' ')`
unfoldable pub join_bodies : List (List ℕ) → List ℕ
join_bodies [] = []
join_bodies (b ∷ []) = b
join_bodies (b ∷ c ∷ bodies) = b ++ 32 ∷ join_bodies (c ∷ bodies)

abbrev pub body_of : DebounceEntry → List ℕ
body_of e = e.body

unfoldable pub turn_text : List DebounceEntry → List ℕ
unfolding join_bodies
turn_text entries = trim (join_bodies (map body_of entries))

unfoldable pub dispatch_turn : Env → Option Tenant → List DebounceEntry → World → World
dispatch_turn env tenant entries w =
    if is_empty (turn_text entries) then w else handle_turn env tenant (turn_text entries) w

-- The job `process-turn`: the handler that `tryFlush` gets is `dispatchTurn`.
unfoldable pub process_turn : Services → Env → Option Tenant → Store × World → Store × World
process_turn svc env tenant (s, w) =
    let (result, s₁) = try_flush svc env.now s in
    (s₁, elim result [ none ↦ w | some entries ↦ dispatch_turn env tenant entries w ])
