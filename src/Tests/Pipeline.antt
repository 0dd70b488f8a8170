-- ===== src/Tests/Pipeline.antt =====
-- Runs of the buffer of one lead.
use inmoagent.Prelude.{◌≤◌, true, false, ◌≡◌, ◌≢◌, refl, [], ◌∷◌, ◌++◌, some}
use inmoagent.Pipeline.Store.{
  DebounceEntry, Pc, starting, locked, cancelled, read, popped, absent, active, Store,
}
use inmoagent.Pipeline.Documented.{documented, documented-IsDocumented}
use inmoagent.Pipeline.Debounce.{remove_job_if_exists}
use inmoagent.Pipeline.System.{
  System, next, turn_command, arrives, turn_added, turn_starts, turn_runs, Reach, begin, later,
}
use inmoagent.Pipeline.Exclusive.{callers_inside, one_if, Reach-exclusive}
use inmoagent.Pipeline.Conserved.{Reach-conserved}
use inmoagent.Pipeline.Conserved.Commands.{in_flight}
use inmoagent.Pipeline.Flush.{uninterrupted, Flushed, uninterrupted-Flushed}
use inmoagent.Pipeline.Stranded.{IsIdle, pushed_late, pushed_late-stranded}
use inmoagent.Pipeline.Processor.{process_turn}
use inmoagent.Pipeline.Burst.{push_all, Answered, process_turn-burst}
use inmoagent.Tests.Data.{agency, new_lead, simple_env, world_of}

abbrev first_text : DebounceEntry
first_text = record { message_id = "m1"; body = b'h' ∷ b'i' ∷ []; type = "TEXT"; created_at = 10 }

abbrev second_text : DebounceEntry
second_text = record { message_id = "m2"; body = b'y' ∷ []; type = "TEXT"; created_at = 20 }

abbrev empty_store : Store
empty_store = record { buffer = []; lock = false; turn = absent; retry = absent }

-- one text is pushed, and its job runs up to its DEL
abbrev in_section : System
in_section = record {
  store = record {
    buffer = [];
    lock = true;
    turn = active (popped (first_text ∷ []));
    retry = absent;
  };
  handed = [];
  received = first_text ∷ [];
  lost = [];
  outside = false;
}

in_section-Reach : Reach documented in_section
unfolding turn_command next remove_job_if_exists
in_section-Reach =
    later
      (later
        (later
          (later
            (later (later (later begin (arrives first_text)) (turn_added 16)) (turn_starts 16 refl))
            (turn_runs 16 starting refl))
          (turn_runs 16 locked refl))
        (turn_runs 16 cancelled refl))
      (turn_runs 16 (read (first_text ∷ [])) refl)

Reach-exclusive_example :
    (callers_inside in_section ≡ one_if in_section.store.lock) × (callers_inside in_section ≤ 1)
Reach-exclusive_example =
    Reach-exclusive documented documented-IsDocumented in_section in_section-Reach

Reach-conserved_example :
    in_section.handed ++ (in_flight in_section ++ in_section.store.buffer) ≡ in_section.received
Reach-conserved_example =
    Reach-conserved documented documented-IsDocumented in_section in_section-Reach refl

-- one text waits, and nobody holds the lock
abbrev waiting : System
waiting = record in_section {
  store = record empty_store { buffer = first_text ∷ []; turn = active starting };
}

uninterrupted-Flushed_example :
    (t : System) × (uninterrupted documented 6 16 starting waiting ≡ some t) × Flushed 16 waiting t
uninterrupted-Flushed_example = uninterrupted-Flushed documented documented-IsDocumented 16 waiting

abbrev busy_store : Store
busy_store = record {
  buffer = first_text ∷ [];
  lock = true;
  turn = absent;
  retry = active starting;
}

no_job : (pc : Pc) → empty_store.turn ≢ active pc
no_job pc q = cc q

pushed_late-stranded_example :
    ((pushed_late documented 6000 20 second_text in_section).store.buffer
      ≡ in_section.store.buffer ++ second_text ∷ [])
    × IsIdle ((pushed_late documented 6000 20 second_text in_section).store.turn)
    × IsIdle ((pushed_late documented 6000 20 second_text in_section).store.retry)
pushed_late-stranded_example =
    pushed_late-stranded documented documented-IsDocumented 6000 20 second_text (first_text ∷ [])
      in_section refl no_job

process_turn-burst_example :
    let t = process_turn documented simple_env (some agency) (
      push_all documented 6000 10 (first_text ∷ second_text ∷ []) empty_store,
      world_of new_lead,
    ) in
    Answered simple_env (some agency) first_text (second_text ∷ []) (world_of new_lead) t.1
    × (t.0.buffer ≡ [])
    × (t.0.lock ≡ false)
process_turn-burst_example =
    process_turn-burst documented documented-IsDocumented simple_env (some agency) 6000 10
      first_text (second_text ∷ []) empty_store (world_of new_lead) refl refl
