-- ===== src/Pipeline/Burst.antt =====
-- From the messages of a burst to the turn that answers them.
use inmoagent.Prelude.{
  ℕ, false, ◌≡◌, ◌≢◌, map, trim, is_empty, refl, sym, ◌∙◌, ap, List, [], ◌∷◌, ◌++◌, Option,
}
use mathlib.Core.List.{append_assoc, append-nil}
use inmoagent.Domain.Lead.{Tenant}
use inmoagent.Conversation.World.{Env, World}
use inmoagent.Pipeline.Store.{DebounceEntry, Store, Services, IsDocumented}
use inmoagent.Pipeline.Documented.{documented, for_documented}
use inmoagent.Pipeline.Debounce.{push, try_flush}
use inmoagent.Conversation.Engine.{handle_turn}
use inmoagent.Pipeline.Processor.{body_of, join_bodies, turn_text, dispatch_turn, process_turn}

unfoldable pub push_all : Services → ℕ → ℕ → List DebounceEntry → Store → Store
push_all svc debounce_ms now [] s = s
push_all svc debounce_ms now (e ∷ es) s =
    push_all svc debounce_ms now es (push svc debounce_ms now e s)

push-buffer :
    (debounce_ms now : ℕ) (e : DebounceEntry) (s : Store)
    → ((push documented debounce_ms now e s).buffer ≡ s.buffer ++ e ∷ [])
      × ((push documented debounce_ms now e s).lock ≡ s.lock)
unfolding push
push-buffer debounce_ms now e s = (refl, refl)

push_all-buffer :
    (debounce_ms now : ℕ) (es : List DebounceEntry) (s : Store)
    → ((push_all documented debounce_ms now es s).buffer ≡ s.buffer ++ es)
      × ((push_all documented debounce_ms now es s).lock ≡ s.lock)
unfolding push_all
push_all-buffer debounce_ms now [] s = (sym (append-nil s.buffer), refl)
push_all-buffer debounce_ms now (e ∷ es) s =
    let (buffer, lock) = push_all-buffer debounce_ms now es (push documented debounce_ms now e s) in
    let (last, same) = push-buffer debounce_ms now e s in
    (
      buffer ∙ ap (λ (l : List DebounceEntry). l ++ es) last ∙ append_assoc s.buffer (e ∷ []) es,
      lock ∙ same,
    )

flushed :
    (env : Env) (tenant : Option Tenant) (s : Store) (w : World) (e : DebounceEntry)
    (es : List DebounceEntry)
    → s.buffer ≡ e ∷ es
    → s.lock ≡ false
    → ((process_turn documented env tenant (s, w)).1 ≡ dispatch_turn env tenant (e ∷ es) w)
      × ((process_turn documented env tenant (s, w)).0.buffer ≡ [])
      × ((process_turn documented env tenant (s, w)).0.lock ≡ false)
unfolding process_turn try_flush
flushed env tenant s w e es shape free = rw (shape, free) (refl, refl, refl)

-- The texts of a burst in the order in which they came, each behind a space but the first.
abbrev pub behind_spaces : List DebounceEntry → List ℕ
behind_spaces [] = []
behind_spaces (e ∷ es) = 32 ∷ e.body ++ behind_spaces es

join_bodies-behind_spaces :
    (e : DebounceEntry) (es : List DebounceEntry)
    → join_bodies (map body_of (e ∷ es)) ≡ e.body ++ behind_spaces es
unfolding join_bodies
join_bodies-behind_spaces e [] = sym (append-nil e.body)
join_bodies-behind_spaces e (e' ∷ es) =
    ap (λ (l : List ℕ). e.body ++ 32 ∷ l) (join_bodies-behind_spaces e' es)

-- What is to become of a burst: nothing where its texts are blank, else one turn on them, trimmed.
abbrev pub Answered :
    Env → Option Tenant → DebounceEntry → List DebounceEntry → World → World → Type 0
Answered env tenant e es w w' =
    (trim (e.body ++ behind_spaces es) ≡ [] → w' ≡ w)
    × (trim (e.body ++ behind_spaces es) ≢ []
        → w' ≡ handle_turn env tenant (trim (e.body ++ behind_spaces es)) w)

nonempty : (s : List ℕ) → s ≢ [] → is_empty s ≡ false
nonempty [] h = absurd (h refl)
nonempty (c ∷ s) h = refl

dispatch_turn-Answered :
    (env : Env) (tenant : Option Tenant) (e : DebounceEntry) (es : List DebounceEntry) (w : World)
    → Answered env tenant e es w (dispatch_turn env tenant (e ∷ es) w)
unfolding dispatch_turn turn_text
dispatch_turn-Answered env tenant e es w = (
  λ blank. rw (join_bodies-behind_spaces e es, blank) refl,
  λ h. rw (join_bodies-behind_spaces e es, nonempty (trim (e.body ++ behind_spaces es)) h) refl,
)

-- The messages of a burst that are pushed to a lead with nothing buffered, and flushed while the
-- lock is free, become one turn of the engine: on their texts in the order in which they came, with a
-- space between two, trimmed; no turn where this is empty. The buffer is empty afterwards and the
-- lock free.
pub process_turn-burst :
    (svc : Services) (d : IsDocumented svc) (env : Env) (tenant : Option Tenant)
    (debounce_ms now : ℕ) (e : DebounceEntry) (es : List DebounceEntry) (s : Store) (w : World)
    → s.buffer ≡ []
    → s.lock ≡ false
    → let t = process_turn svc env tenant (push_all svc debounce_ms now (e ∷ es) s, w) in
      Answered env tenant e es w t.1 × (t.0.buffer ≡ []) × (t.0.lock ≡ false)
process_turn-burst svc d env tenant debounce_ms now e es s w =
    for_documented d Burst (λ nothing free.
      let (buffer, lock) = push_all-buffer debounce_ms now (e ∷ es) s in
      let (turn, emptied, unlocked) =
        flushed env tenant (push_all documented debounce_ms now (e ∷ es) s) w e es
          (buffer ∙ ap (λ (l : List DebounceEntry). l ++ e ∷ es) nothing) (lock ∙ free) in
      (rw turn (dispatch_turn-Answered env tenant e es w), emptied, unlocked))
  where
    Burst : Services → Type 0
    Burst svc =
        s.buffer ≡ []
        → s.lock ≡ false
        → let t = process_turn svc env tenant (push_all svc debounce_ms now (e ∷ es) s, w) in
          Answered env tenant e es w t.1 × (t.0.buffer ≡ []) × (t.0.lock ≡ false)
