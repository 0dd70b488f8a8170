-- ===== src/Pipeline/Conserved/Commands.antt =====
-- What one command does to the entries that are buffered, in flight and handed over.
use mathlib.Core.List.{append-nil, append_assoc}
use inmoagent.Prelude.{
  ℕ, ◌+◌, true, false, ◌≡◌, refl, sym, ◌∙◌, ap, subst, List, [], ◌∷◌, ◌++◌, arith, length, drop,
  Bool-cases, inl, inr,
}
use inmoagent.Pipeline.Store.{
  DebounceEntry, Pc, starting, refused, retry_removed, locked, cancelled, releasing, read, popped,
  JobStatus, absent, finished, delayed, active,
}
use inmoagent.Pipeline.Documented.{documented}
use inmoagent.Pipeline.Debounce.{
  lock_retry_delay_ms, remove_job_if_exists, cancel_pending_retry, acquire_lock, release_lock,
}
use inmoagent.Pipeline.System.{System, status, next, turn_command, retry_command}
use inmoagent.Pipeline.Exclusive.{is_inside, IsHeld}

-- The entries that a run took from the buffer and has not handed over yet.
abbrev pub flight : JobStatus → List DebounceEntry
flight (active (popped entries)) = entries
flight _ = []

abbrev pub in_flight : System → List DebounceEntry
in_flight s = flight s.store.turn ++ flight s.store.retry

-- What a run has read is the front of the buffer.
abbrev pub Snap : JobStatus → List DebounceEntry → Type 0
Snap (active (read entries)) b = (newer : List DebounceEntry) × (b ≡ entries ++ newer)
Snap _ b = Unit

abbrev pub Kept : List DebounceEntry → System → Type 0
Kept mid s = s.lost ≡ [] → s.handed ++ (mid ++ s.store.buffer) ≡ s.received

pub remove-flight : (j : JobStatus) → flight (remove_job_if_exists documented j) ≡ flight j
unfolding remove_job_if_exists
remove-flight absent = refl
remove-flight finished = refl
remove-flight (delayed due) = refl
remove-flight (active pc) = refl

pub remove-Snap :
    (j : JobStatus) (b : List DebounceEntry) → Snap j b → Snap (remove_job_if_exists documented j) b
unfolding remove_job_if_exists
remove-Snap absent b h = tt
remove-Snap finished b h = tt
remove-Snap (delayed due) b h = tt
remove-Snap (active pc) b h = h

pub add-flight : (due : ℕ) (j : JobStatus) → flight (documented.add due j) ≡ flight j
add-flight due absent = refl
add-flight due finished = refl
add-flight due (delayed due') = refl
add-flight due (active pc) = refl

pub add-Snap :
    (due : ℕ) (j : JobStatus) (b : List DebounceEntry) → Snap j b → Snap (documented.add due j) b
add-Snap due absent b h = tt
add-Snap due finished b h = tt
add-Snap due (delayed due') b h = tt
add-Snap due (active pc) b h = h

Snap-outside :
    (j : JobStatus) (b : List DebounceEntry) → is_inside j ≡ false → Snap j b × (flight j ≡ [])
Snap-outside absent b h = (tt, refl)
Snap-outside finished b h = (tt, refl)
Snap-outside (delayed due) b h = (tt, refl)
Snap-outside (active starting) b h = (tt, refl)
Snap-outside (active refused) b h = (tt, refl)
Snap-outside (active retry_removed) b h = (tt, refl)
Snap-outside (active locked) b h = (tt, refl)
Snap-outside (active cancelled) b h = (tt, refl)
Snap-outside (active (read entries)) b h = absurd (cc h)
Snap-outside (active (popped entries)) b h = absurd (cc h)
Snap-outside (active releasing) b h = (tt, refl)

drop-append : (es newer : List DebounceEntry) → drop (length es) (es ++ newer) ≡ newer
drop-append [] newer = refl
drop-append (e ∷ es) newer = drop-append es newer

append-eq-nil : (a b : List DebounceEntry) → a ++ b ≡ [] → (a ≡ []) × (b ≡ [])
append-eq-nil [] b h = (refl, h)
append-eq-nil (x ∷ a) b h = absurd (cc h)

-- DEL: what stands behind the entries that were read is lost.
delete-Kept :
    (s : System) (es newer : List DebounceEntry)
    → s.store.buffer ≡ es ++ newer
    → (s.lost ≡ [] → s.handed ++ s.store.buffer ≡ s.received)
    → s.lost ++ drop (length es) s.store.buffer ≡ []
    → s.handed ++ es ≡ s.received
delete-Kept s es newer shape kept none_lost =
    let (before, now) = append-eq-nil s.lost (drop (length es) s.store.buffer) none_lost in
    let nothing : newer ≡ [] =
      sym (drop-append es newer) ∙ ap (drop (length es)) (sym shape) ∙ now in
    ap (λ (l : List DebounceEntry). s.handed ++ l)
      (sym (append-nil es) ∙ ap (λ (l : List DebounceEntry). es ++ l) (sym nothing) ∙ sym shape)
    ∙ kept before

next-Kept :
    (now : ℕ) (pc : Pc) (s : System) (other : List DebounceEntry)
    → (is_inside (active pc) ≡ true → other ≡ [])
    → Snap (active pc) s.store.buffer
    → Kept (flight (active pc) ++ other) s
    → Snap (status (next documented now pc s).0) (next documented now pc s).1.store.buffer
      × Kept (flight (status (next documented now pc s).0) ++ other) (next documented now pc s).1
unfolding next acquire_lock cancel_pending_retry release_lock
next-Kept now starting s other alone snap kept = elim (Bool-cases s.store.lock) [
  | inl e ↦ rw e (tt, kept)
  | inr e ↦ rw e (tt, kept)
]
next-Kept now refused s other alone snap kept = (tt, kept)
next-Kept now retry_removed s other alone snap kept = (tt, kept)
next-Kept now locked s other alone snap kept = (tt, kept)
next-Kept now cancelled s other alone snap kept = (([], sym (append-nil s.store.buffer)), kept)
next-Kept now (read es) s other alone (newer, shape) kept = (
  tt,
  λ none_lost.
      ap (λ (l : List DebounceEntry). s.handed ++ l)
        (append-nil (es ++ other)
          ∙ ap (λ (o : List DebounceEntry). es ++ o) (alone refl)
          ∙ append-nil es)
      ∙ delete-Kept s es newer shape
          (λ none_before.
            ap (λ (o : List DebounceEntry). s.handed ++ (o ++ s.store.buffer)) (sym (alone refl))
            ∙ kept none_before)
          none_lost,
)
next-Kept now (popped es) s other alone snap kept = (
  tt,
  λ none_lost.
      append_assoc s.handed es (other ++ s.store.buffer)
      ∙ ap (λ (l : List DebounceEntry). s.handed ++ l) (sym (append_assoc es other s.store.buffer))
      ∙ kept none_lost,
)
next-Kept now releasing s other alone snap kept = (tt, kept)

next-retry :
    (now : ℕ) (pc : Pc) (s : System)
    → (is_inside (active pc) ≡ true → is_inside s.store.retry ≡ false)
    → Snap s.store.retry s.store.buffer
    → (flight (next documented now pc s).1.store.retry ≡ flight s.store.retry)
      × Snap (next documented now pc s).1.store.retry (next documented now pc s).1.store.buffer
unfolding next acquire_lock cancel_pending_retry release_lock
next-retry now starting s alone snap = (refl, snap)
next-retry now refused s alone snap =
    (remove-flight s.store.retry, remove-Snap s.store.retry s.store.buffer snap)
next-retry now retry_removed s alone snap =
    let due = now + lock_retry_delay_ms in
    (add-flight due s.store.retry, add-Snap due s.store.retry s.store.buffer snap)
next-retry now locked s alone snap =
    (remove-flight s.store.retry, remove-Snap s.store.retry s.store.buffer snap)
next-retry now cancelled s alone snap = (refl, snap)
next-retry now (read es) s alone snap = (refl, (Snap-outside s.store.retry [] (alone refl)).0)
next-retry now (popped es) s alone snap = (refl, snap)
next-retry now releasing s alone snap = (refl, snap)

next-turn :
    (now : ℕ) (pc : Pc) (s : System)
    → (is_inside (active pc) ≡ true → is_inside s.store.turn ≡ false)
    → Snap s.store.turn s.store.buffer
    → (flight (next documented now pc s).1.store.turn ≡ flight s.store.turn)
      × Snap (next documented now pc s).1.store.turn (next documented now pc s).1.store.buffer
unfolding next acquire_lock cancel_pending_retry release_lock
next-turn now (read es) s alone snap = (refl, (Snap-outside s.store.turn [] (alone refl)).0)
next-turn now starting s alone snap = (refl, snap)
next-turn now refused s alone snap = (refl, snap)
next-turn now retry_removed s alone snap = (refl, snap)
next-turn now locked s alone snap = (refl, snap)
next-turn now cancelled s alone snap = (refl, snap)
next-turn now (popped es) s alone snap = (refl, snap)
next-turn now releasing s alone snap = (refl, snap)

-- Of two jobs at most one has entries in flight, so their order does not matter.
flight_swap :
    (a b : JobStatus)
    → (is_inside a ≡ true → is_inside b ≡ false)
    → flight a ++ flight b ≡ flight b ++ flight a
flight_swap a b alone = elim (Bool-cases (is_inside a)) [
  | inl e ↦ rw ((Snap-outside b [] (alone e)).1) (append-nil (flight a))
  | inr e ↦ rw ((Snap-outside a [] e).1) (sym (append-nil (flight b)))
]

alone_retry :
    (s : System) → IsHeld s → is_inside s.store.turn ≡ true → is_inside s.store.retry ≡ false
alone_retry s h e = ground (arith, h, e)

alone_turn :
    (s : System) → IsHeld s → is_inside s.store.retry ≡ true → is_inside s.store.turn ≡ false
alone_turn s h e = ground (arith, h, e)

pub record Inv (s : System) : Type 0 where
  pub held : IsHeld s
  pub turn_snap : Snap s.store.turn s.store.buffer
  pub retry_snap : Snap s.store.retry s.store.buffer
  pub kept : Kept (in_flight s) s

pub turn_command-Inv :
    (now : ℕ) (pc : Pc) (s : System)
    → s.store.turn ≡ active pc
    → Inv s
    → IsHeld (turn_command documented now pc s)
    → Inv (turn_command documented now pc s)
unfolding turn_command
turn_command-Inv now pc s e inv held' =
    let alone : is_inside (active pc) ≡ true → is_inside s.store.retry ≡ false =
      λ i. alone_retry s inv.held (ap is_inside e ∙ i) in
    let (same, retry_snap) = next-retry now pc s alone inv.retry_snap in
    let (snap, kept) =
      next-Kept now pc s (flight s.store.retry) (λ i. (Snap-outside s.store.retry [] (alone i)).1)
        (subst (λ j. Snap j s.store.buffer) e inv.turn_snap)
        (subst (λ j. Kept (flight j ++ flight s.store.retry) s) e inv.kept) in
    record { held = held'; turn_snap = snap; retry_snap = retry_snap; kept = rw same kept }

pub retry_command-Inv :
    (now : ℕ) (pc : Pc) (s : System)
    → s.store.retry ≡ active pc
    → Inv s
    → IsHeld (retry_command documented now pc s)
    → Inv (retry_command documented now pc s)
unfolding retry_command
retry_command-Inv now pc s e inv held' =
    let alone : is_inside (active pc) ≡ true → is_inside s.store.turn ≡ false =
      λ i. alone_turn s inv.held (ap is_inside e ∙ i) in
    let (same, turn_snap) = next-turn now pc s alone inv.turn_snap in
    let (snap, kept) =
      next-Kept now pc s (flight s.store.turn) (λ i. (Snap-outside s.store.turn [] (alone i)).1)
        (subst (λ j. Snap j s.store.buffer) e inv.retry_snap)
        (subst (λ j. Kept (flight j ++ flight s.store.turn) s) e
          (subst (λ l. Kept l s) (flight_swap s.store.turn s.store.retry (alone_retry s inv.held))
            inv.kept)) in
    let t = retry_command documented now pc s in
    record {
      held = held';
      turn_snap = turn_snap;
      retry_snap = snap;
      kept =
          subst (λ l. Kept l t) (flight_swap t.store.retry t.store.turn (alone_turn t held'))
            (rw same kept);
    }
