-- ===== src/Pipeline/System.antt =====
-- The same methods command by command, as concurrent callers interleave them: the pushes of
-- messages, the runs of the two flush jobs and the callers of `withLeadLock`.
use inmoagent.Prelude.{
  ℕ, ◌+◌, Bool, true, false, ◌≡◌, List, [], ◌∷◌, ◌++◌, if◌then◌else◌, Option, none, some, length,
  drop,
}
use inmoagent.Pipeline.Store.{
  DebounceEntry, Pc, starting, refused, retry_removed, locked, cancelled, releasing, read, popped,
  JobStatus, absent, finished, delayed, active, Store, Services,
}
use inmoagent.Pipeline.Debounce.{
  lock_retry_delay_ms, remove_job_if_exists, cancel_pending_retry, acquire_lock, release_lock,
}

-- A store, the entries given to the handler so far, those pushed so far, those deleted without
-- having been read, and whether a caller of `withLeadLock` runs its function.
pub record System : Type 0 where
  pub store : Store
  pub handed : List DebounceEntry
  pub received : List DebounceEntry
  pub lost : List DebounceEntry
  pub outside : Bool

-- A run that goes on, or is at its end.
abbrev pub status : Option Pc → JobStatus
status none = finished
status (some pc) = active pc

module _ (svc : Services) where
  -- The next command of a run of `tryFlush`. Behind DEL it is the call of the handler, if there is
  -- an entry.
  unfoldable pub next : ℕ → Pc → System → Option Pc × System
  unfolding acquire_lock cancel_pending_retry release_lock
  next now starting s =
      let (done, store) = acquire_lock svc s.store in
      (some (if done then locked else refused), record s { store = store })
  next now refused s = (
    some retry_removed,
    record s { store = record (s.store) { retry = remove_job_if_exists svc s.store.retry } },
  )
  next now retry_removed s = (
    none,
    record s {
      store = record (s.store) { retry = svc.add (now + lock_retry_delay_ms) s.store.retry };
    },
  )
  next now locked s = (some cancelled, record s { store = cancel_pending_retry svc s.store })
  next now cancelled s = (some (read (svc.lrange s.store.buffer)), s)
  next now (read entries) s = (
    some (popped entries),
    record s {
      store = record (s.store) { buffer = svc.del_list s.store.buffer };
      lost = s.lost ++ drop (length entries) s.store.buffer;
    },
  )
  next now (popped entries) s = (some releasing, record s { handed = s.handed ++ entries })
  next now releasing s = (none, record s { store = release_lock svc s.store })

  -- the job `turn__...` runs its next command
  unfoldable pub turn_command : ℕ → Pc → System → System
  turn_command now pc s =
      let (after, s₁) = next now pc s in
      record s₁ { store = record (s₁.store) { turn = status after } }

  unfoldable pub retry_command : ℕ → Pc → System → System
  retry_command now pc s =
      let (after, s₁) = next now pc s in
      record s₁ { store = record (s₁.store) { retry = status after } }

  -- What can happen next. A push is an `arrives` followed by the other commands of `scheduleTurn`,
  -- which can stand anywhere here. The lock does not expire and is not purged.
  pub data Step (s : System) : System → Type 0 where
    arrives :
        (e : DebounceEntry)
        → Step s (record s {
          store = record (s.store) { buffer = svc.rpush e s.store.buffer };
          received = s.received ++ e ∷ [];
        })
    retry_cancelled : Step s (record s { store = cancel_pending_retry svc s.store })
    turn_removed :
        Step s
          (record s { store = record (s.store) { turn = remove_job_if_exists svc s.store.turn } })
    turn_added :
        (due : ℕ)
        → Step s (record s { store = record (s.store) { turn = svc.add due s.store.turn } })
    turn_starts :
        (due : ℕ)
        → s.store.turn ≡ delayed due
        → Step s (record s { store = record (s.store) { turn = active starting } })
    retry_starts :
        (due : ℕ)
        → s.store.retry ≡ delayed due
        → Step s (record s { store = record (s.store) { retry = active starting } })
    turn_runs : (now : ℕ) (pc : Pc) → s.store.turn ≡ active pc → Step s (turn_command now pc s)
    retry_runs : (now : ℕ) (pc : Pc) → s.store.retry ≡ active pc → Step s (retry_command now pc s)
    enters :
        (acquire_lock svc s.store).0 ≡ true
        → Step s (record s { store = (acquire_lock svc s.store).1; outside = true })
    leaves :
        s.outside ≡ true → Step s (record s { store = release_lock svc s.store; outside = false })

  pub data Reach : System → Type 0 where
    begin : Reach (record {
      store = record { buffer = []; lock = false; turn = absent; retry = absent };
      handed = [];
      received = [];
      lost = [];
      outside = false;
    })
    later : {s t : System} → Reach s → Step s t → Reach t
