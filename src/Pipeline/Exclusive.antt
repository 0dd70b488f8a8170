-- ===== src/Pipeline/Exclusive.antt =====
-- Who is between taking a lead's lock and giving it back.
use inmoagent.Prelude.{ℕ, ◌+◌, ◌≤◌, Bool, true, false, ◌≡◌, refl, arith, if◌then◌else◌}
use inmoagent.Pipeline.Store.{
  Pc, starting, refused, retry_removed, locked, cancelled, releasing, read, popped, JobStatus,
  absent, finished, delayed, active, Services, IsDocumented,
}
use inmoagent.Pipeline.Documented.{documented, for_documented}
use inmoagent.Pipeline.Debounce.{
  lock_retry_delay_ms, remove_job_if_exists, cancel_pending_retry, acquire_lock, release_lock,
}
use inmoagent.Pipeline.System.{
  System, next, turn_command, retry_command, Step, arrives, retry_cancelled, turn_removed,
  turn_added, turn_starts, retry_starts, turn_runs, retry_runs, enters, leaves, Reach, begin, later,
}

-- The run stands between the acquisition of the lock and its release.
abbrev pub is_inside : JobStatus → Bool
is_inside (active locked) = true
is_inside (active cancelled) = true
is_inside (active (read entries)) = true
is_inside (active (popped entries)) = true
is_inside (active releasing) = true
is_inside _ = false

abbrev pub one_if : Bool → ℕ
one_if b = if b then 1 else 0

-- How many callers are inside: the two jobs, and a function under `withLeadLock`.
abbrev pub callers_inside : System → ℕ
callers_inside s =
    one_if (is_inside s.store.turn) + one_if (is_inside s.store.retry) + one_if s.outside

abbrev pub IsHeld : System → Type 0
IsHeld s = callers_inside s ≡ one_if s.store.lock

pub remove-is_inside : (j : JobStatus) → is_inside (remove_job_if_exists documented j) ≡ is_inside j
unfolding remove_job_if_exists
remove-is_inside absent = refl
remove-is_inside finished = refl
remove-is_inside (delayed due) = refl
remove-is_inside (active pc) = refl

pub add-is_inside : (due : ℕ) (j : JobStatus) → is_inside (documented.add due j) ≡ is_inside j
add-is_inside due absent = refl
add-is_inside due finished = refl
add-is_inside due (delayed due') = refl
add-is_inside due (active pc) = refl

turn_command-IsHeld :
    (now : ℕ) (pc : Pc) (s : System)
    → s.store.turn ≡ active pc
    → IsHeld s
    → IsHeld (turn_command documented now pc s)
unfolding turn_command next acquire_lock release_lock cancel_pending_retry
turn_command-IsHeld now starting s e h = ground (arith, e)
turn_command-IsHeld now refused s e h = ground (arith, e, remove-is_inside s.store.retry)
turn_command-IsHeld now retry_removed s e h =
    ground (arith, e, add-is_inside (now + lock_retry_delay_ms) s.store.retry)
turn_command-IsHeld now locked s e h = ground (arith, e, remove-is_inside s.store.retry)
turn_command-IsHeld now cancelled s e h = ground (arith, e)
turn_command-IsHeld now (read entries) s e h = ground (arith, e)
turn_command-IsHeld now (popped entries) s e h = ground (arith, e)
turn_command-IsHeld now releasing s e h = ground (arith, e)

retry_command-IsHeld :
    (now : ℕ) (pc : Pc) (s : System)
    → s.store.retry ≡ active pc
    → IsHeld s
    → IsHeld (retry_command documented now pc s)
unfolding retry_command next acquire_lock release_lock cancel_pending_retry
retry_command-IsHeld now starting s e h = ground (arith, e)
retry_command-IsHeld now refused s e h = ground (arith, e, remove-is_inside s.store.retry)
retry_command-IsHeld now retry_removed s e h =
    ground (arith, e, add-is_inside (now + lock_retry_delay_ms) s.store.retry)
retry_command-IsHeld now locked s e h = ground (arith, e, remove-is_inside s.store.retry)
retry_command-IsHeld now cancelled s e h = ground (arith, e)
retry_command-IsHeld now (read entries) s e h = ground (arith, e)
retry_command-IsHeld now (popped entries) s e h = ground (arith, e)
retry_command-IsHeld now releasing s e h = ground (arith, e)

pub Step-IsHeld : {s t : System} → Step documented s t → IsHeld s → IsHeld t
unfolding cancel_pending_retry acquire_lock release_lock
Step-IsHeld (arrives e) h = h
Step-IsHeld {s} retry_cancelled h = ground (arith, remove-is_inside s.store.retry)
Step-IsHeld {s} turn_removed h = ground (arith, remove-is_inside s.store.turn)
Step-IsHeld {s} (turn_added due) h = ground (arith, add-is_inside due s.store.turn)
Step-IsHeld (turn_starts due e) h = ground (arith, e)
Step-IsHeld (retry_starts due e) h = ground (arith, e)
Step-IsHeld {s} (turn_runs now pc e) h = turn_command-IsHeld now pc s e h
Step-IsHeld {s} (retry_runs now pc e) h = retry_command-IsHeld now pc s e h
Step-IsHeld (enters free) h = ground (arith, free)
Step-IsHeld (leaves inside) h = ground (arith, inside)

pub Reach-IsHeld : {s : System} → Reach documented s → IsHeld s
Reach-IsHeld begin = refl
Reach-IsHeld (later r step) = Step-IsHeld step (Reach-IsHeld r)

-- However pushes, flush jobs and functions under the lock interleave, at most one caller is
-- between taking a lead's lock and giving it back, and one is exactly while the lock is held, as
-- long as the lock does not expire and is not purged.
pub Reach-exclusive :
    (svc : Services) (d : IsDocumented svc) (s : System)
    → Reach svc s
    → (callers_inside s ≡ one_if s.store.lock) × (callers_inside s ≤ 1)
Reach-exclusive svc d = for_documented d Exclusive exclusive
  where
    Exclusive : Services → Type 0
    Exclusive svc =
        (s : System)
        → Reach svc s
        → (callers_inside s ≡ one_if s.store.lock) × (callers_inside s ≤ 1)

    exclusive : Exclusive documented
    exclusive s r = let h = Reach-IsHeld r in (h, ground arith)
