-- ===== src/Pipeline/Store.antt =====
-- What Redis and the job queue keep for one lead, and the commands on it that
-- src/pipeline/debounce-buffer.service.ts uses. Redis and BullMQ are parameters: `Services`.
use inmoagent.Prelude.{ℕ, String, Bool, true, false, ◌≡◌, List, [], ◌∷◌, ◌++◌}

-- pipeline.types.ts
pub record DebounceEntry : Type 0 where
  pub message_id : String
  pub body : List ℕ
  pub type : String
  pub created_at : ℕ

-- Where a run of `tryFlush` stands, between two commands: before SET NX; refused the lock, before
-- and after the removal of an old retry; with the lock, before and after the cancelling of a retry;
-- between LRANGE and DEL; behind DEL; before the lock's DEL.
pub data Pc : Type 0 where
  starting refused retry_removed locked cancelled releasing : Pc
  read popped : List DebounceEntry → Pc

-- A job of a fixed id. An active one is a run of `tryFlush`; a finished one keeps its id.
pub data JobStatus : Type 0 where
  absent finished : JobStatus
  delayed : ℕ → JobStatus
  active : Pc → JobStatus

-- The keys `debounce:...` and `debounce:lock:...` (true while the key is there), and the jobs
-- `turn__...` and `turn__...__retry`.
pub record Store : Type 0 where
  pub buffer : List DebounceEntry
  pub lock : Bool
  pub turn : JobStatus
  pub retry : JobStatus

-- The commands. `set_nx` gives whether the key was set, and the key.
pub record Services : Type 0 where
  pub rpush : DebounceEntry → List DebounceEntry → List DebounceEntry
  pub lrange : List DebounceEntry → List DebounceEntry
  pub del_list : List DebounceEntry → List DebounceEntry
  pub set_nx : Bool → Bool × Bool
  pub del_lock : Bool → Bool
  pub remove : JobStatus → JobStatus
  pub add : ℕ → JobStatus → JobStatus

-- What the documentation of Redis and BullMQ says of them: a job that is active is not removed, and
-- a job is added only where no job has its id.
pub record IsDocumented (svc : Services) : Type 0 where
  pub rpush_last : (e : DebounceEntry) (b : List DebounceEntry) → svc.rpush e b ≡ b ++ e ∷ []
  pub lrange_whole : (b : List DebounceEntry) → svc.lrange b ≡ b
  pub del_list_empties : (b : List DebounceEntry) → svc.del_list b ≡ []
  pub set_nx_free : svc.set_nx false ≡ (true, true)
  pub set_nx_taken : svc.set_nx true ≡ (false, true)
  pub del_lock_frees : (l : Bool) → svc.del_lock l ≡ false
  pub remove_absent : svc.remove absent ≡ absent
  pub remove_finished : svc.remove finished ≡ absent
  pub remove_delayed : (due : ℕ) → svc.remove (delayed due) ≡ absent
  pub remove_active : (pc : Pc) → svc.remove (active pc) ≡ active pc
  pub add_absent : (due : ℕ) → svc.add due absent ≡ delayed due
  pub add_finished : (due : ℕ) → svc.add due finished ≡ finished
  pub add_delayed : (due due' : ℕ) → svc.add due (delayed due') ≡ delayed due'
  pub add_active : (due : ℕ) (pc : Pc) → svc.add due (active pc) ≡ active pc
