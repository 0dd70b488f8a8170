-- ===== src/Pipeline/Debounce.antt =====
-- The methods of src/pipeline/debounce-buffer.service.ts, each run without interruption. Texts are
-- stored as they are: what JSON.stringify and JSON.parse do to an entry is left out, and so are the
-- log lines.
use inmoagent.Prelude.{ℕ, ◌+◌, Bool, List, is_empty, if◌then◌else◌, Option, none, some}
use inmoagent.Pipeline.Store.{DebounceEntry, JobStatus, absent, Store, Services}

abbrev pub lock_retry_delay_ms : ℕ
lock_retry_delay_ms = 2000

module _ (svc : Services) where
  unfoldable pub remove_job_if_exists : JobStatus → JobStatus
  remove_job_if_exists absent = absent
  remove_job_if_exists job = svc.remove job

  unfoldable pub cancel_pending_retry : Store → Store
  cancel_pending_retry s = record s { retry = remove_job_if_exists s.retry }

  -- `due` is when the job is to run.
  unfoldable pub schedule_turn : ℕ → Store → Store
  unfolding cancel_pending_retry
  schedule_turn due s =
      let s₁ = cancel_pending_retry s in
      let s₂ : Store = record s₁ { turn = remove_job_if_exists s₁.turn } in
      record s₂ { turn = svc.add due s₂.turn }

  unfoldable pub schedule_retry : ℕ → Store → Store
  schedule_retry now s =
      let s₁ : Store = record s { retry = remove_job_if_exists s.retry } in
      record s₁ { retry = svc.add (now + lock_retry_delay_ms) s₁.retry }

  unfoldable pub push : ℕ → ℕ → DebounceEntry → Store → Store
  unfolding schedule_turn
  push debounce_ms now entry s =
      schedule_turn (now + debounce_ms) (record s { buffer = svc.rpush entry s.buffer })

  unfoldable pub acquire_lock : Store → Bool × Store
  acquire_lock s = let (locked, lock) = svc.set_nx s.lock in (locked, record s { lock = lock })

  unfoldable pub release_lock : Store → Store
  release_lock s = record s { lock = svc.del_lock s.lock }

  unfoldable pub pop_all : Store → List DebounceEntry × Store
  pop_all s = (svc.lrange s.buffer, record s { buffer = svc.del_list s.buffer })

  -- The rest of `tryFlush`: the flush under the lock, or the request to try again.
  unfoldable pub flush_or_retry : ℕ → Bool → Store → Option (List DebounceEntry) × Store
  unfolding cancel_pending_retry pop_all release_lock schedule_retry
  flush_or_retry now locked s =
      let (entries, s₁) = pop_all (cancel_pending_retry s) in
      if locked
      then ((if is_empty entries then none else some entries), release_lock s₁)
      else (none, schedule_retry now s)

  -- The entries that the handler is called with, if it is called, and the store afterwards: the
  -- lock is released whether the handler throws or not.
  unfoldable pub try_flush : ℕ → Store → Option (List DebounceEntry) × Store
  unfolding acquire_lock flush_or_retry
  try_flush now s = let (locked, s₁) = acquire_lock s in flush_or_retry now locked s₁

  -- `fn` on what it changes, which the lock guards.
  unfoldable pub with_lead_lock : {A : Type 0} → (A → A) → A → Store → Option A × Store
  unfolding acquire_lock release_lock
  with_lead_lock fn a s =
      let (locked, s₁) = acquire_lock s in
      if locked then (some (fn a), release_lock s₁) else (none, s₁)

  unfoldable pub purge_lead : Store → Store
  unfolding cancel_pending_retry
  purge_lead s =
      let s₁ : Store = record s { buffer = svc.del_list s.buffer; lock = svc.del_lock s.lock } in
      let s₂ : Store = record s₁ { turn = remove_job_if_exists s₁.turn } in cancel_pending_retry s₂
