-- ===== src/Pipeline/Stranded.antt =====
-- A text that is pushed while the flush of its lead runs.
use inmoagent.Prelude.{ℕ, ◌≡◌, ◌≢◌, refl, List, [], ◌∷◌, ◌++◌}
use inmoagent.Pipeline.Store.{
  DebounceEntry, Pc, popped, JobStatus, absent, finished, delayed, active, Store, Services,
  IsDocumented,
}
use inmoagent.Pipeline.Documented.{documented, for_documented}
use inmoagent.Pipeline.Debounce.{remove_job_if_exists, push}
use inmoagent.Pipeline.System.{System, next, turn_command}

-- Nothing will run for the lead by itself.
abbrev pub IsIdle : JobStatus → Type 0
IsIdle j = ((due : ℕ) → j ≢ delayed due) × ((pc : Pc) → j ≢ active pc)

-- The job `turn__...` goes on, if it is active.
unfoldable pub resume : Services → ℕ → JobStatus → System → System
unfolding turn_command
resume svc now (active pc) s = turn_command svc now pc s
resume svc now _ s = s

-- A push, and then two commands of the job.
unfoldable pub pushed_late : Services → ℕ → ℕ → DebounceEntry → System → System
unfolding resume push
pushed_late svc debounce_ms now e s =
    let s₁ : System = record s { store = push svc debounce_ms now e s.store } in
    let s₂ = resume svc now s₁.store.turn s₁ in resume svc now s₂.store.turn s₂

removed-IsIdle :
    (j : JobStatus) → ((pc : Pc) → j ≢ active pc) → IsIdle (remove_job_if_exists documented j)
unfolding remove_job_if_exists
removed-IsIdle absent idle = (λ due q. cc q, λ pc q. cc q)
removed-IsIdle finished idle = (λ due q. cc q, λ pc q. cc q)
removed-IsIdle (delayed due) idle = (λ due q. cc q, λ pc q. cc q)
removed-IsIdle (active pc) idle = absurd (idle pc refl)

push_active :
    (debounce_ms now : ℕ) (e : DebounceEntry) (s : Store) (pc : Pc)
    → s.turn ≡ active pc
    → (push documented debounce_ms now e s).turn ≡ active pc
unfolding push remove_job_if_exists
push_active debounce_ms now e s pc running = rw running

stranded_end :
    (now : ℕ) (entries : List DebounceEntry) (s : System)
    → s.store.turn ≡ active (popped entries)
    → let s₁ = resume documented now s.store.turn s in
      let t = resume documented now s₁.store.turn s₁ in
      (t.store.buffer ≡ s.store.buffer)
      × (t.store.turn ≡ finished)
      × (t.store.retry ≡ s.store.retry)
unfolding resume next
stranded_end now entries s running = rw running (refl, refl, refl)

-- A text that is pushed while `turn__...` is between its DEL and the release of the lock, with no
-- other flush running, stays in the buffer when the run ends, and no job is left that would flush it.
pub pushed_late-stranded :
    (svc : Services) (d : IsDocumented svc) (debounce_ms now : ℕ) (e : DebounceEntry)
    (entries : List DebounceEntry) (s : System)
    → s.store.turn ≡ active (popped entries)
    → ((pc : Pc) → s.store.retry ≢ active pc)
    → ((pushed_late svc debounce_ms now e s).store.buffer ≡ s.store.buffer ++ e ∷ [])
      × IsIdle ((pushed_late svc debounce_ms now e s).store.turn)
      × IsIdle ((pushed_late svc debounce_ms now e s).store.retry)
unfolding pushed_late
pushed_late-stranded svc d debounce_ms now e entries s = for_documented d Stranded stranded
  where
    Stranded : Services → Type 0
    Stranded svc =
        s.store.turn ≡ active (popped entries)
        → ((pc : Pc) → s.store.retry ≢ active pc)
        → ((pushed_late svc debounce_ms now e s).store.buffer ≡ s.store.buffer ++ e ∷ [])
          × IsIdle ((pushed_late svc debounce_ms now e s).store.turn)
          × IsIdle ((pushed_late svc debounce_ms now e s).store.retry)

    stranded : Stranded documented
    stranded running idle =
        let e₁ = push_active debounce_ms now e s.store (popped entries) running in
        let s₁ : System = record s { store = push documented debounce_ms now e s.store } in
        let (buffer, turn, retry) = stranded_end now entries s₁ e₁ in
        (
          buffer,
          rw turn ((λ due q. cc q), (λ pc q. cc q)),
          rw retry (removed-IsIdle s.store.retry idle),
        )
