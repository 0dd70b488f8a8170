-- ===== src/Pipeline/Conserved.antt =====
-- What becomes of the entries that are pushed.
pub mod Commands
use mathlib.Core.List.{append-nil, append_assoc}
use inmoagent.Prelude.{
  ℕ, ◌+◌, Bool, true, false, ◌≡◌, refl, sym, ◌∙◌, ap, subst, List, [], ◌∷◌, ◌++◌, Option, none,
  some, arith, length, drop, Bool-cases, inl, inr,
}
use inmoagent.Pipeline.Store.{
  DebounceEntry, Pc, starting, refused, retry_removed, locked, cancelled, releasing, read, popped,
  JobStatus, absent, finished, delayed, active, Store, Services, IsDocumented,
}
use inmoagent.Pipeline.Documented.{documented, for_documented}
use inmoagent.Pipeline.Debounce.{
  lock_retry_delay_ms, remove_job_if_exists, cancel_pending_retry, acquire_lock, release_lock,
}
use inmoagent.Pipeline.System.{
  System, status, next, turn_command, retry_command, Step, arrives, retry_cancelled, turn_removed,
  turn_added, turn_starts, retry_starts, turn_runs, retry_runs, enters, leaves, Reach, begin, later,
}
use inmoagent.Pipeline.Exclusive.{is_inside, IsHeld, Step-IsHeld, Reach-IsHeld}
use Commands.{
  flight, in_flight, Snap, Kept, remove-flight, remove-Snap, add-flight, add-Snap, turn_command-Inv,
  retry_command-Inv, Inv,
}

Snap-grows :
    (j : JobStatus) (b : List DebounceEntry) (e : DebounceEntry) → Snap j b → Snap j (b ++ e ∷ [])
Snap-grows absent b e h = tt
Snap-grows finished b e h = tt
Snap-grows (delayed due) b e h = tt
Snap-grows (active starting) b e h = tt
Snap-grows (active refused) b e h = tt
Snap-grows (active retry_removed) b e h = tt
Snap-grows (active locked) b e h = tt
Snap-grows (active cancelled) b e h = tt
Snap-grows (active (read entries)) b e (newer, shape) =
    (newer ++ e ∷ [], ap (λ l. l ++ e ∷ []) shape ∙ append_assoc entries newer (e ∷ []))
Snap-grows (active (popped entries)) b e h = tt
Snap-grows (active releasing) b e h = tt

Step-Inv : {s t : System} → Step documented s t → Inv s → Inv t
unfolding cancel_pending_retry acquire_lock release_lock
Step-Inv {s} (arrives e) inv = record {
  held = Step-IsHeld {s = s} (arrives e) inv.held;
  turn_snap = Snap-grows s.store.turn s.store.buffer e inv.turn_snap;
  retry_snap = Snap-grows s.store.retry s.store.buffer e inv.retry_snap;
  kept = λ none_lost.
      ap (λ (l : List DebounceEntry). s.handed ++ l)
        (sym (append_assoc (in_flight s) s.store.buffer (e ∷ [])))
      ∙ sym (append_assoc s.handed (in_flight s ++ s.store.buffer) (e ∷ []))
      ∙ ap (λ (l : List DebounceEntry). l ++ e ∷ []) (inv.kept none_lost);
}
Step-Inv {s} retry_cancelled inv = record {
  held = Step-IsHeld {s = s} retry_cancelled inv.held;
  turn_snap = inv.turn_snap;
  retry_snap = remove-Snap s.store.retry s.store.buffer inv.retry_snap;
  kept = rw (remove-flight s.store.retry) inv.kept;
}
Step-Inv {s} turn_removed inv = record {
  held = Step-IsHeld {s = s} turn_removed inv.held;
  turn_snap = remove-Snap s.store.turn s.store.buffer inv.turn_snap;
  retry_snap = inv.retry_snap;
  kept = rw (remove-flight s.store.turn) inv.kept;
}
Step-Inv {s} (turn_added due) inv = record {
  held = Step-IsHeld {s = s} (turn_added due) inv.held;
  turn_snap = add-Snap due s.store.turn s.store.buffer inv.turn_snap;
  retry_snap = inv.retry_snap;
  kept = rw (add-flight due s.store.turn) inv.kept;
}
Step-Inv {s} (turn_starts due e) inv = record {
  held = Step-IsHeld {s = s} (turn_starts due e) inv.held;
  turn_snap = tt;
  retry_snap = inv.retry_snap;
  kept = subst (λ j. Kept (flight j ++ flight s.store.retry) s) e inv.kept;
}
Step-Inv {s} (retry_starts due e) inv = record {
  held = Step-IsHeld {s = s} (retry_starts due e) inv.held;
  turn_snap = inv.turn_snap;
  retry_snap = tt;
  kept = subst (λ j. Kept (flight s.store.turn ++ flight j) s) e inv.kept;
}
Step-Inv {s} (turn_runs now pc e) inv =
    turn_command-Inv now pc s e inv (Step-IsHeld {s = s} (turn_runs now pc e) inv.held)
Step-Inv {s} (retry_runs now pc e) inv =
    retry_command-Inv now pc s e inv (Step-IsHeld {s = s} (retry_runs now pc e) inv.held)
Step-Inv {s} (enters free) inv = record {
  held = Step-IsHeld {s = s} (enters free) inv.held;
  turn_snap = inv.turn_snap;
  retry_snap = inv.retry_snap;
  kept = inv.kept;
}
Step-Inv {s} (leaves inside) inv = record {
  held = Step-IsHeld {s = s} (leaves inside) inv.held;
  turn_snap = inv.turn_snap;
  retry_snap = inv.retry_snap;
  kept = inv.kept;
}

Reach-Inv : {s : System} → Reach documented s → Inv s
Reach-Inv begin = record { held = refl; turn_snap = tt; retry_snap = tt; kept = λ q. refl }
Reach-Inv (later r step) = Step-Inv step (Reach-Inv r)

-- However pushes, flush jobs and functions under the lock interleave, while no entry was deleted
-- unread, what the handler got, what a run holds and what is buffered are together, in this order,
-- all that was pushed: nothing is lost, doubled or reordered, as long as the lock does not expire
-- and is not purged.
pub Reach-conserved :
    (svc : Services) (d : IsDocumented svc) (s : System)
    → Reach svc s
    → s.lost ≡ []
    → s.handed ++ (in_flight s ++ s.store.buffer) ≡ s.received
Reach-conserved svc d = for_documented d Conserved (λ s r. (Reach-Inv r).kept)
  where
    Conserved : Services → Type 0
    Conserved svc =
        (s : System)
        → Reach svc s
        → s.lost ≡ []
        → s.handed ++ (in_flight s ++ s.store.buffer) ≡ s.received
