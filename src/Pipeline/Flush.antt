-- ===== src/Pipeline/Flush.antt =====
-- One flush from its start to its end: what becomes of the buffer, the lock and the jobs.
use mathlib.Core.List.{append-nil}
use inmoagent.Prelude.{
  ℕ, zero, suc, ◌+◌, true, false, ◌≡◌, ◌≢◌, refl, List, [], ◌∷◌, ◌++◌, Option, none, some, arith,
  is_empty, Bool-cases, inl, inr, ◌∙◌, ap, drop, length,
}
use inmoagent.Pipeline.Store.{
  DebounceEntry, Pc, starting, JobStatus, absent, finished, delayed, active, Store, Services,
  IsDocumented,
}
use inmoagent.Pipeline.Documented.{documented, for_documented}
use inmoagent.Pipeline.Debounce.{
  remove_job_if_exists, acquire_lock, cancel_pending_retry, release_lock, push, try_flush,
}
use inmoagent.Pipeline.System.{System, next}

-- The commands of a run one after the other, with nobody else between them.
unfoldable pub uninterrupted : Services → ℕ → ℕ → Pc → System → Option System
uninterrupted svc zero now pc s = none
uninterrupted svc (suc fuel) now pc s =
    let (after, s') = next svc now pc s in
    elim after [ none ↦ some s' | some pc' ↦ uninterrupted svc fuel now pc' s' ]

-- What a run is to leave. With the lock free before it: the handler has got all that was buffered,
-- in order and once, the buffer is empty, the lock is free again and no retry waits, unless one is
-- running. With the lock taken: nothing is handed over, nothing popped, the lock is left to its holder,
-- and a retry waits for two seconds later, unless one is running.
pub record Flushed (now : ℕ) (s t : System) : Type 0 where
  pub free :
      s.store.lock ≡ false
      → (t.handed ≡ s.handed ++ s.store.buffer)
        × (t.store.buffer ≡ [])
        × (t.store.lock ≡ false)
        × (((pc : Pc) → s.store.retry ≢ active pc) → t.store.retry ≡ absent)
  pub taken :
      s.store.lock ≡ true
      → (t.handed ≡ s.handed)
        × (t.store.buffer ≡ s.store.buffer)
        × (t.store.lock ≡ true)
        × (((pc : Pc) → s.store.retry ≢ active pc) → t.store.retry ≡ delayed (now + 2000))
  pub retry_runs : (pc : Pc) → s.store.retry ≡ active pc → t.store.retry ≡ active pc
  pub turn_kept : t.store.turn ≡ s.store.turn
  pub nothing_lost : t.lost ≡ s.lost

retry_free :
    (due : ℕ) (j : JobStatus)
    → ((pc : Pc) → j ≢ active pc)
    → documented.add due (remove_job_if_exists documented j) ≡ delayed due
unfolding remove_job_if_exists
retry_free due absent idle = refl
retry_free due finished idle = refl
retry_free due (delayed due') idle = refl
retry_free due (active pc) idle = absurd (idle pc refl)

removed_free :
    (j : JobStatus) → ((pc : Pc) → j ≢ active pc) → remove_job_if_exists documented j ≡ absent
unfolding remove_job_if_exists
removed_free absent idle = refl
removed_free finished idle = refl
removed_free (delayed due) idle = refl
removed_free (active pc) idle = absurd (idle pc refl)

removed_active :
    (j : JobStatus) (pc : Pc) → j ≡ active pc → remove_job_if_exists documented j ≡ active pc
unfolding remove_job_if_exists
removed_active j pc e = rw e refl

retry_active :
    (due : ℕ) (j : JobStatus) (pc : Pc)
    → j ≡ active pc
    → documented.add due (remove_job_if_exists documented j) ≡ active pc
unfolding remove_job_if_exists
retry_active due j pc e = rw e refl

drop_all {ℓ} : {A : Type ℓ} (l : List A) → drop (length l) l ≡ []
drop_all [] = refl
drop_all (a ∷ l) = drop_all l

-- A run by the commands as they are documented.
run_free :
    (now : ℕ) (s : System)
    → s.store.lock ≡ false
    → (t : System) × (uninterrupted documented 6 now starting s ≡ some t) × Flushed now s t
unfolding uninterrupted next acquire_lock cancel_pending_retry release_lock
run_free now s h = rw h (
  _,
  refl,
  record {
    free = λ e. (refl, refl, refl, λ idle. removed_free s.store.retry idle);
    taken = λ e. absurd (cc e);
    retry_runs = λ pc e. removed_active s.store.retry pc e;
    turn_kept = refl;
    nothing_lost =
        ap (λ (l : List DebounceEntry). s.lost ++ l) (drop_all s.store.buffer) ∙ append-nil s.lost;
  },
)

run_taken :
    (now : ℕ) (s : System)
    → s.store.lock ≡ true
    → (t : System) × (uninterrupted documented 6 now starting s ≡ some t) × Flushed now s t
unfolding uninterrupted next acquire_lock
run_taken now s h = rw h (
  _,
  refl,
  record {
    free = λ e. absurd (cc e);
    taken = λ e. (refl, refl, refl, λ idle. retry_free (now + 2000) s.store.retry idle);
    retry_runs = λ pc e. retry_active (now + 2000) s.store.retry pc e;
    turn_kept = refl;
    nothing_lost = refl;
  },
)

-- A run of `tryFlush` that nobody interrupts ends within six commands. If the lock was free, the
-- handler has got then all that was buffered, in order and once, the buffer is empty and the lock
-- free; if it was taken, nothing is handed over or popped, the lock is left as it is, and a retry
-- waits for two seconds later, unless one is running. Nothing is lost.
pub uninterrupted-Flushed :
    (svc : Services) (d : IsDocumented svc) (now : ℕ) (s : System)
    → (t : System) × (uninterrupted svc 6 now starting s ≡ some t) × Flushed now s t
uninterrupted-Flushed svc d now s =
    for_documented d Runs
      (elim (Bool-cases s.store.lock) [ inl e ↦ run_taken now s e | inr e ↦ run_free now s e ])
  where
    Runs : Services → Type 0
    Runs svc = (t : System) × (uninterrupted svc 6 now starting s ≡ some t) × Flushed now s t

busy_idle :
    (now : ℕ) (s : Store)
    → s.lock ≡ true
    → ((pc : Pc) → s.retry ≢ active pc)
    → try_flush documented now s ≡ (none, record s { retry = delayed (now + 2000) })
unfolding try_flush
busy_idle now s taken idle = ground (arith, taken, retry_free (now + 2000) s.retry idle)

busy_active :
    (now : ℕ) (s : Store)
    → s.lock ≡ true
    → (pc : Pc) → s.retry ≡ active pc
    → try_flush documented now s ≡ (none, s)
unfolding try_flush remove_job_if_exists
busy_active now s taken pc e = ground (arith, taken, e)

push-job :
    (debounce_ms now : ℕ) (e : DebounceEntry) (s : Store)
    → ((pc : Pc) → s.turn ≢ active pc)
    → (push documented debounce_ms now e s).turn ≡ delayed (now + debounce_ms)
unfolding push
push-job debounce_ms now e s idle = retry_free (now + debounce_ms) s.turn idle

append-is_empty : (l : List DebounceEntry) (e : DebounceEntry) → is_empty (l ++ e ∷ []) ≡ false
append-is_empty [] e = refl
append-is_empty (x ∷ l) e = refl

push-handed :
    (debounce_ms now later : ℕ) (e : DebounceEntry) (s : Store)
    → s.lock ≡ false
    → ((try_flush documented later (push documented debounce_ms now e s)).0
        ≡ some (s.buffer ++ e ∷ []))
      × ((try_flush documented later (push documented debounce_ms now e s)).1.buffer ≡ [])
      × ((try_flush documented later (push documented debounce_ms now e s)).1.lock ≡ false)
unfolding push try_flush
push-handed debounce_ms now later e s free =
    rw (free, append-is_empty s.buffer e) (refl, refl, refl)

-- A flush of a lead whose lock is taken calls no handler; it leaves a job to try again two seconds
-- later, unless it is that job itself: then it leaves nothing.
pub try_flush-busy :
    (svc : Services) (d : IsDocumented svc) (now : ℕ) (s : Store)
    → s.lock ≡ true
    → (((pc : Pc) → s.retry ≢ active pc)
        → try_flush svc now s ≡ (none, record s { retry = delayed (now + 2000) }))
      × ((pc : Pc) → s.retry ≡ active pc → try_flush svc now s ≡ (none, s))
try_flush-busy svc d now = for_documented d Busy busy
  where
    Busy : Services → Type 0
    Busy svc =
        (s : Store)
        → s.lock ≡ true
        → (((pc : Pc) → s.retry ≢ active pc)
            → try_flush svc now s ≡ (none, record s { retry = delayed (now + 2000) }))
          × ((pc : Pc) → s.retry ≡ active pc → try_flush svc now s ≡ (none, s))

    busy : Busy documented
    busy s taken = (λ idle. busy_idle now s taken idle, λ pc e. busy_active now s taken pc e)

-- A push while no flush of the lead runs as `turn__...` leaves a job for it; when that job runs and
-- finds the lock free, its handler gets all that is buffered, in order, and the new text last.
pub push-flushed :
    (svc : Services) (d : IsDocumented svc) (debounce_ms now later : ℕ) (e : DebounceEntry)
    (s : Store)
    → ((pc : Pc) → s.turn ≢ active pc)
    → s.lock ≡ false
    → ((push svc debounce_ms now e s).turn ≡ delayed (now + debounce_ms))
      × ((try_flush svc later (push svc debounce_ms now e s)).0 ≡ some (s.buffer ++ e ∷ []))
      × ((try_flush svc later (push svc debounce_ms now e s)).1.buffer ≡ [])
      × ((try_flush svc later (push svc debounce_ms now e s)).1.lock ≡ false)
push-flushed svc d debounce_ms now later e s = for_documented d Flushed (λ idle free.
    let (entries, emptied, unlocked) = push-handed debounce_ms now later e s free in
    (push-job debounce_ms now e s idle, entries, emptied, unlocked))
  where
    Flushed : Services → Type 0
    Flushed svc =
        ((pc : Pc) → s.turn ≢ active pc)
        → s.lock ≡ false
        → ((push svc debounce_ms now e s).turn ≡ delayed (now + debounce_ms))
          × ((try_flush svc later (push svc debounce_ms now e s)).0 ≡ some (s.buffer ++ e ∷ []))
          × ((try_flush svc later (push svc debounce_ms now e s)).1.buffer ≡ [])
          × ((try_flush svc later (push svc debounce_ms now e s)).1.lock ≡ false)
