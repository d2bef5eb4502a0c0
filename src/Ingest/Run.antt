-- ===== src/Ingest/Run.antt =====
-- RunIngestQueue: the pending tasks in order, each saved as processing before it is validated.
use knowlega.Base.{
  ℕ, suc, ◌+◌, String, Bool, not, ◌&&◌, ◌||◌, Option, none, some, List, [], ◌∷◌, ◌++◌, ◌==◌, ltb,
  leb, if◌then◌else◌, length, keep_if,
}
use knowlega.Base.Text.{trim_space}
use knowlega.Ingest.Queue.{
  IngestTask, processing, done, failed, is_pending, is_failed, is_done, Result, ok, err, no_project,
  no_validator, not_saved, World, load_queue, save_queue,
}

-- A limit that is not positive is 0, for none.
pub record RunOptions : Type 0 where
  pub project_path : String
  pub max_tasks : ℕ
  pub retry_failed : Bool
  pub keep_done : Bool

pub record ValidateResult : Type 0 where
  pub raw_path : String
  pub files : List String
  pub skipped : Bool
  pub sha256 : String

-- What the validator answers for a task.
pub data Validated : Type 0 where
  valid : ValidateResult → Validated
  invalid : String → Validated

pub record RunResult : Type 0 where
  pub processed : ℕ
  pub done : ℕ
  pub failed : ℕ
  pub skipped : ℕ
  pub files : ℕ
  pub tasks : List IngestTask

abbrev pub no_result : RunResult
no_result = record { processed = 0; done = 0; failed = 0; skipped = 0; files = 0; tasks = [] }

abbrev pub is_eligible : RunOptions → IngestTask → Bool
is_eligible opts t = is_pending t.status || (opts.retry_failed && is_failed t.status)

abbrev pub limit_reached : RunOptions → RunResult → Bool
limit_reached opts r = ltb 0 opts.max_tasks && leb opts.max_tasks r.processed

abbrev pub start_task : String → IngestTask → IngestTask
start_task now t = record t { status = processing; error = ""; updated_at = now }

unfoldable pub end_task : String → Validated → IngestTask → IngestTask
end_task now (invalid reason) t = record t {
  status = failed;
  error = reason;
  retry_count = suc t.retry_count;
  updated_at = now;
}
end_task now (valid v) t = record t {
  status = done;
  raw_path = v.raw_path;
  files = v.files;
  sha256 = v.sha256;
  updated_at = now;
}

unfoldable pub count_task : Validated → RunResult → RunResult
count_task (invalid reason) r = record r { processed = suc r.processed; failed = suc r.failed }
count_task (valid v) r = record r {
  processed = suc r.processed;
  done = suc r.done;
  skipped = if v.skipped then suc r.skipped else r.skipped;
  files = if v.skipped then r.files else r.files + length v.files;
}

-- The loop. `clock n` is the n-th time that the run reads, `validator n` what the callback answers
-- when n tasks are behind. `before` are the tasks that it has passed; `none` is a save that fails.
module _ (opts : RunOptions) (clock : ℕ → String) (validator : ℕ → IngestTask → Validated) where
  unfoldable pub run_tasks :
      List IngestTask
      → List IngestTask
      → World
      → RunResult
      → World × Option (List IngestTask × RunResult)
  unfolding end_task count_task
  run_tasks before [] w r = (w, some (before, r))
  run_tasks before (t ∷ rest) w r =
      let started = start_task (clock (r.processed + r.processed)) t in
      let answer = validator r.processed started in
      let ended = end_task (clock (suc (r.processed + r.processed))) answer started in
      let saved = save_queue w (before ++ (started ∷ rest)) in
      let passed = run_tasks (before ++ t ∷ []) rest w r in
      let next = run_tasks (before ++ ended ∷ []) rest saved.0 (count_task answer r) in
      if limit_reached opts r
      then (w, some (before ++ (t ∷ rest), r))
      else if not (is_eligible opts t)
      then passed
      else if saved.1
      then next
      else (saved.0, none)

unfoldable pub prune_done_tasks : List IngestTask → List IngestTask
prune_done_tasks tasks = keep_if (λ t. not (is_done t.status)) tasks

-- After the loop: the prune, the last save, and the result.
unfoldable pub finish_run :
    RunOptions → World × Option (List IngestTask × RunResult) → World × Result RunResult
unfolding prune_done_tasks save_queue
finish_run opts (w, none) = (w, err not_saved)
finish_run opts (w, some (tasks, r)) =
    let kept = if opts.keep_done then tasks else prune_done_tasks tasks in
    let saved = save_queue w kept in
    if saved.1 then (saved.0, ok (record r { tasks = kept })) else (saved.0, err not_saved)

-- `given` says whether a validator is given.
unfoldable pub run_ingest_queue :
    RunOptions
    → Bool
    → (ℕ → String)
    → (ℕ → IngestTask → Validated)
    → World
    → World × Result RunResult
unfolding finish_run run_tasks load_queue
run_ingest_queue opts given clock validator w =
    if trim_space opts.project_path == ""
    then (w, err no_project)
    else if not given
    then (w, err no_validator)
    else elim (load_queue w.queue_file) [
      | err e ↦ (w, err e)
      | ok q ↦ finish_run opts (run_tasks opts clock validator [] q.tasks w no_result)
    ]
