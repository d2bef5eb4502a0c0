-- ===== src/Scheduler/Tests.antt =====
-- A run over one source.
use knowlega.Base.{
  String, ◌≡◌, refl, sym, subst, inl, inr, eq_iff, Bool, true, false, Option, some, none, [], ◌∷◌,
  arith, elem,
}
use knowlega.Base.Text.{trim_space}
use knowlega.Scheduler.Types.{
  Limits, effective_limits, Env, Sched, SourceTask, SourceState, no_state, conflict, pg_pending,
}
use knowlega.Scheduler.Dispatch.{dispatch}
use knowlega.Scheduler.Texts.{sorted_unique}
use knowlega.Scheduler.Restart.{recovery_keys, conflict_recovery}
use knowlega.Scheduler.StartRun.{Restart, ready, stopped, start_run}
use knowlega.Scheduler.Results.{on_result}
use knowlega.Scheduler.Events.{InTasks, Steps, no_step, step_then, worker_answers}
use knowlega.Scheduler.Busy.{Busy}
use knowlega.Scheduler.Kept.{AllInHand, in_hand, dispatch-Dispatched}
use knowlega.Scheduler.Sane.{Sane}
use knowlega.Scheduler.Restored.{StateOk}
use knowlega.Scheduler.Started.{run-Sane}
use knowlega.Scheduler.Unsynced.{Stopped, start_run-Stopped}
use mathlib.Core.Bool.{false≢true}

abbrev zero_limits : Limits
zero_limits = record {
  concurrency = 0;
  max_attempts = 0;
  max_conflict_attempts = 0;
  max_impact_attempts = 0;
}

abbrev limits : Limits
limits = record {
  concurrency = 1;
  max_attempts = 4;
  max_conflict_attempts = 8;
  max_impact_attempts = 2;
}

defaults_taken : effective_limits zero_limits ≡ limits
unfolding effective_limits
defaults_taken = refl

sorted : sorted_unique ("b" ∷ " a" ∷ "b" ∷ "" ∷ []) ≡ "a" ∷ "b" ∷ []
unfolding sorted_unique trim_space
sorted = refl

abbrev env : Env
env = record {
  limits = limits;
  source_of = λ i. "raw/a.md";
  has_assessor = true;
  to_lower = λ s. s;
  text_sha256 = λ lines. "id";
}

abbrev fingerprint_of : String → Option String
fingerprint_of source = some "f"

abbrev forced : String → Bool
forced source = elem source (
    recovery_keys (λ s. s) [] (record { source_path = "raw/b.md"; paths = "wiki/x.md" ∷ [] } ∷ [])
      (("raw/a.md", "wiki/x.md" ∷ []) ∷ []))

owner_forced : forced "raw/a.md" ≡ true
unfolding recovery_keys
owner_forced = refl

abbrev states : String → SourceState
states source = no_state

abbrev task : SourceTask
task = record {
  index = 0;
  attempt = 1;
  force = true;
  sync_only = none;
  update_only = false;
  fingerprint = "f";
  conflict_attempts = 0;
  conflict_paths = [];
}

abbrev of_start : Restart Sched → Sched
of_start (ready s) = s
of_start (stopped e) = record {
  queue = [];
  conflict_queue = [];
  active = [];
  held = [];
  settled = [];
  states = states;
  impact_jobs = [];
  impact_answers = [];
  pending_impacts = [];
  decisions = [];
  removed_intents = [];
  fatal = none;
  faults = [];
}

started : Sched
started = of_start (start_run env fingerprint_of forced ("raw/a.md" ∷ []) states [] [])

starts : start_run env fingerprint_of forced ("raw/a.md" ∷ []) states [] [] ≡ ready started
unfolding start_run started conflict_recovery dispatch
starts = refl

runs_task : started.active ≡ task ∷ []
unfolding start_run started recovery_keys conflict_recovery dispatch
runs_task = refl

-- The task meets a conflict and is started again, as a conflict retry.
after_conflict : Sched
after_conflict = on_result env task (conflict ("wiki/x.md" ∷ []) "stale") started

retried_paths : after_conflict.held ≡ (0, "wiki/x.md" ∷ []) ∷ []
unfolding after_conflict on_result start_run started trim_space conflict_recovery
retried_paths = refl

steps : Steps env started after_conflict
unfolding after_conflict
steps =
    step_then
      (worker_answers task (conflict ("wiki/x.md" ∷ []) "stale")
        (subst (λ l. InTasks task l) (sym runs_task) (inl refl)))
      no_step

in_limits : (source : String) → StateOk 0 limits (states source)
in_limits source = record { attempts_le = omega arith; conflicts_le = omega arith }

run-Sane_example : Sane 0 limits after_conflict
run-Sane_example =
    run-Sane 0 env fingerprint_of forced ("raw/a.md" ∷ []) states [] [] started after_conflict
      in_limits starts steps

abbrev waiting_task : Sched
waiting_task = record started { queue = task ∷ []; active = [] }

dispatch-Dispatched_example :
    AllInHand waiting_task (dispatch limits (λ i. "raw/a.md") waiting_task).0
    × (in_hand (dispatch limits (λ i. "raw/a.md") waiting_task).0 ≡ in_hand waiting_task)
    × Busy limits (dispatch limits (λ i. "raw/a.md") waiting_task).0
dispatch-Dispatched_example =
    dispatch-Dispatched limits (λ i. "raw/a.md") waiting_task
      (unfold dispatch started start_run conflict_recovery in refl)

abbrev unsynced : SourceState
unsynced = record no_state {
  status = pg_pending;
  attempts = 4;
  reason = "connection refused";
  input_fingerprint = "f";
}

start_run-Stopped_example :
    Stopped
      (start_run env fingerprint_of forced ("raw/b.md" ∷ "raw/a.md" ∷ []) (λ s. unsynced) [] [])
start_run-Stopped_example =
    start_run-Stopped env fingerprint_of forced ("raw/b.md" ∷ "raw/a.md" ∷ []) (λ s. unsynced) [] []
      "raw/a.md" "f" (inr (inl refl)) refl
      (record {
        waits = refl;
        same = refl;
        failed = λ h. false≢true ((eq_iff "connection refused" "").1 h);
        last = omega arith;
      })
