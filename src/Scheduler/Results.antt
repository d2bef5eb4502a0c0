-- ===== src/Scheduler/Results.antt =====
-- What the scheduler does with the answer of a worker: the first case of the select in
-- validateLLMWikiSourcesConcurrent.
use knowlega.Base.{
  ℕ, suc, String, Bool, true, false, ◌&&◌, Option, none, some, List, [], ◌∷◌, ◌++◌, map, ◌==◌, ltb,
  leb, ◌=ℕ◌, if◌then◌else◌, length,
}
use knowlega.Scheduler.Types.{
  ValidateResult, SourceTask, TaskStatus, SourceState, update_state, attempt_limit, Fatal,
  ImpactFinding, ImpactJob, Sched, Env, TaskOutcome, set_state, release_paths, or_fatal, not_saved,
  save_state, is_conflict_task, exhausted, finished, conflict, sync_failed, task_failed, failed,
  conflicted, pg_pending, transient, invalidated, settled,
}
use knowlega.Scheduler.Dispatch.{dispatch, note_fatal}
use knowlega.Scheduler.Texts.{sorted_unique, is_transient}
use knowlega.Scheduler.Jobs.{build_impact_job}

abbrev pub or_else : Option Fatal → Fatal → Fatal
or_else none f = f
or_else (some g) f = g

abbrev pub cached_decision :
    String → List (String × List ImpactFinding) → Option (List ImpactFinding)
cached_decision id [] = none
cached_decision id ((j, d) ∷ decisions) = if j == id then some d else cached_decision id decisions

-- Deletion from and assignment to the map of the pending impacts.
abbrev pub drop_pending : String → List (String × List String) → List (String × List String)
drop_pending id [] = []
drop_pending id ((j, paths) ∷ pending) =
    if j == id then drop_pending id pending else (j, paths) ∷ drop_pending id pending

abbrev pub set_pending :
    String → List String → List (String × List String) → List (String × List String)
set_pending id paths pending = (id, paths) ∷ drop_pending id pending

abbrev pub without : ℕ → List (ℕ × ValidateResult) → List (ℕ × ValidateResult)
without i [] = []
without i ((j, r) ∷ results) = if j =ℕ i then without i results else (j, r) ∷ without i results

-- active-- and delete(activeConflictPaths, item.task.index): one task of this index ends.
abbrev pub end_one : ℕ → List SourceTask → List SourceTask
end_one i [] = []
end_one i (t ∷ tasks) = if t.index =ℕ i then tasks else t ∷ end_one i tasks

unfoldable pub end_active : SourceTask → Sched → Sched
end_active t s = record s { active = end_one t.index s.active; held = release_paths t.index s.held }

-- The state of a task's source after it, with the task's own fingerprint.
abbrev pub note : Env → SourceTask → TaskStatus → String → Sched → SourceState
unfolding update_state
note env t status reason s =
    update_state status t.attempt reason t.fingerprint t.update_only
      (s.states (env.source_of t.index))

-- A task put back in the conflict queue, its source marked conflicted.
unfoldable pub requeue_conflict : Env → SourceTask → SourceTask → String → Sched → Sched
requeue_conflict env t next reason s =
    let source = env.source_of t.index in
    let noted = note env next conflicted reason s in
    record s {
      conflict_queue = s.conflict_queue ++ next ∷ [];
      states =
          set_state source
            (record noted {
              conflict_attempts = next.conflict_attempts;
              conflict_paths = next.conflict_paths;
            })
            s.states;
    }

unfoldable pub requeue : Env → SourceTask → SourceTask → TaskStatus → String → Sched → Sched
requeue env t next status reason s = record s {
  queue = s.queue ++ next ∷ [];
  states = set_state (env.source_of t.index) (note env t status reason s) s.states;
}

abbrev pub fail_source : Env → SourceTask → String → Fatal → Sched → Sched
fail_source env t reason f s = record s {
  fatal = some f;
  states = set_state (env.source_of t.index) (note env t failed reason s) s.states;
}

abbrev pub retried : SourceTask → ℕ → SourceTask
retried t attempt = record t { attempt = attempt; force = true; sync_only = none }

unfoldable pub on_conflict : Env → SourceTask → List String → String → Sched → Sched
unfolding requeue_conflict sorted_unique
on_conflict env t paths reason s =
    if leb env.limits.max_conflict_attempts t.conflict_attempts
    then fail_source env t reason (exhausted (env.source_of t.index) t.conflict_attempts reason) s
    else let next = record t {
      force = true;
      sync_only = none;
      conflict_attempts = suc t.conflict_attempts;
      conflict_paths = sorted_unique (t.conflict_paths ++ paths);
    } in
      requeue_conflict env t next reason s

abbrev pub synced : SourceTask → ValidateResult → SourceTask
synced t r = record t {
  force = false;
  sync_only = some r;
  conflict_attempts = 0;
  conflict_paths = [];
}

-- Back to the queue that the task belongs in.
unfoldable pub requeue_either : Env → SourceTask → SourceTask → TaskStatus → String → Sched → Sched
requeue_either env t next status reason s =
    if is_conflict_task next
    then requeue_conflict env t next reason s
    else requeue env t next status reason s

unfoldable pub on_error : Env → SourceTask → Bool → String → Sched → Sched
unfolding is_transient requeue_either
on_error env t deadline reason s =
    if is_transient env.to_lower deadline reason
    then requeue_either env t (retried t t.attempt) transient reason s
    else if leb (attempt_limit env.limits t.update_only) t.attempt
    then fail_source env t reason
        (or_else s.fatal (exhausted (env.source_of t.index) t.attempt reason)) s
    else requeue_either env t (retried t (suc t.attempt)) invalidated reason s

-- A cached decision is answered at once, another job is sent to the reviewer.
unfoldable pub send_impact : ImpactJob → Sched → Sched
send_impact job s = elim (cached_decision job.id s.decisions) [
  | some affected ↦ record s { impact_answers = s.impact_answers ++ (job, affected) ∷ [] }
  | none ↦ record s {
    impact_jobs = s.impact_jobs ++ job ∷ [];
    pending_impacts =
        set_pending job.id (job.changed_source ∷ map (λ (c : String × ℕ). c.0) job.candidates)
          s.pending_impacts;
  }
]

-- The source is settled, and its conflicts forgotten.
unfoldable pub settle : Env → SourceTask → ValidateResult → Sched → Sched
unfolding update_state
settle env t r s =
    let source = env.source_of t.index in
    let noted = update_state settled t.attempt "" t.fingerprint false (s.states source) in
    record s {
      settled = (t.index, r) ∷ without t.index s.settled;
      states =
          set_state source (record noted { conflict_attempts = 0; conflict_paths = [] }) s.states;
    }

-- The reviewer is asked about the settled sources that the changed pages concern, if there are any.
unfoldable pub on_settled : Env → SourceTask → ValidateResult → Sched → Sched
unfolding settle send_impact build_impact_job
on_settled env t r s =
    let done = settle env t r s in
    let job = build_impact_job env (env.source_of t.index) r done.settled in
    if env.has_assessor && ltb 0 (length r.page_changes) && ltb 0 (length job.candidates)
    then send_impact job done
    else done

unfoldable pub on_outcome : Env → SourceTask → TaskOutcome → Sched → Sched
unfolding on_conflict on_error on_settled requeue
on_outcome env t (conflict paths reason) s = on_conflict env t paths reason s
on_outcome env t (sync_failed r reason) s = requeue env t (synced t r) pg_pending reason s
on_outcome env t (task_failed deadline reason) s = on_error env t deadline reason s
on_outcome env t (finished r) s = on_settled env t r s

abbrev pub intent_of : TaskOutcome → String
intent_of (finished r) = r.commit_intent
intent_of (conflict paths reason) = ""
intent_of (sync_failed r reason) = ""
intent_of (task_failed deadline reason) = ""

-- saveBootstrapTaskState after an answer; only then the commit intent is removed.
unfoldable pub save_after : String → Sched → Sched
save_after intent s =
    let (saved, faults) = save_state s.faults in
    if saved
    then (if intent == ""
        then record s { faults = faults }
        else record s { faults = faults; removed_intents = intent ∷ s.removed_intents })
    else record s { faults = faults; fatal = or_fatal s.fatal not_saved }

-- `item := <-results`.
unfoldable pub on_result : Env → SourceTask → TaskOutcome → Sched → Sched
unfolding end_active on_outcome save_after dispatch
on_result env t outcome s =
    let answered = save_after (intent_of outcome) (on_outcome env t outcome (end_active t s)) in
    note_fatal (dispatch env.limits env.source_of answered)
