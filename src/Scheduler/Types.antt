-- ===== src/Scheduler/Types.antt =====
-- The tasks, the states that are persisted, and the state of the scheduler.
use knowlega.Base.{
  ℕ, ◌+◌, String, Bool, true, false, not, ◌||◌, Option, none, some, List, [], ◌∷◌, ◌==◌, ltb, ◌=ℕ◌,
  if◌then◌else◌, length,
}

pub record PageChange : Type 0 where
  pub path : String
  pub before_sha256 : String
  pub after_sha256 : String

pub record ValidateResult : Type 0 where
  pub files : List String
  pub dependencies : List String
  pub page_changes : List PageChange
  pub commit_intent : String

pub record SourceTask : Type 0 where
  pub index : ℕ
  pub attempt : ℕ
  pub force : Bool
  pub sync_only : Option ValidateResult
  pub update_only : Bool
  pub fingerprint : String
  pub conflict_attempts : ℕ
  pub conflict_paths : List String

pub data TaskStatus : Type 0 where
  new processing settled failed conflicted pg_pending transient invalidated impact_pending :
      TaskStatus

pub record SourceState : Type 0 where
  pub status : TaskStatus
  pub attempts : ℕ
  pub impact_attempts : ℕ
  pub conflict_attempts : ℕ
  pub conflict_paths : List String
  pub reason : String
  pub input_fingerprint : String
  pub update_only : Bool

abbrev pub no_state : SourceState
no_state = record {
  status = new;
  attempts = 0;
  impact_attempts = 0;
  conflict_attempts = 0;
  conflict_paths = [];
  reason = "";
  input_fingerprint = "";
  update_only = false;
}

unfoldable pub update_state : TaskStatus → ℕ → String → String → Bool → SourceState → SourceState
update_state status attempts reason fingerprint update_only previous = record previous {
  status = status;
  attempts = attempts;
  reason = reason;
  input_fingerprint = fingerprint;
  update_only = update_only;
}

pub record Limits : Type 0 where
  pub concurrency : ℕ
  pub max_attempts : ℕ
  pub max_conflict_attempts : ℕ
  pub max_impact_attempts : ℕ

abbrev pub or_default : ℕ → ℕ → ℕ
or_default n d = if n =ℕ 0 then d else n

-- A number that is not positive is 0 in the options.
unfoldable pub effective_limits : Limits → Limits
effective_limits l = record {
  concurrency = or_default l.concurrency 1;
  max_attempts = or_default l.max_attempts 4;
  max_conflict_attempts = or_default l.max_conflict_attempts 8;
  max_impact_attempts = or_default l.max_impact_attempts 2;
}

abbrev pub attempt_limit : Limits → Bool → ℕ
attempt_limit l update_only =
    if update_only then l.max_attempts + l.max_impact_attempts else l.max_attempts

pub data Fatal : Type 0 where
  exhausted : String → ℕ → String → Fatal
  assess_failed : String → Fatal
  not_saved : Fatal

pub record ImpactFinding : Type 0 where
  pub source_path : String
  pub reason : String

-- A job of the impact reviewer: the changed source and the index of each candidate. A job whose decision is
-- cached is answered at once with it.
pub record ImpactJob : Type 0 where
  pub id : String
  pub changed_source : String
  pub candidates : List (String × ℕ)
  pub transient_attempts : ℕ

-- `active` are the tasks that workers run, `held` the conflict paths of those that are conflict
-- retries, `faults` which of the coming saves of the state file fail.
pub record Sched : Type 0 where
  pub queue : List SourceTask
  pub conflict_queue : List SourceTask
  pub active : List SourceTask
  pub held : List (ℕ × List String)
  pub settled : List (ℕ × ValidateResult)
  pub states : String → SourceState
  pub impact_jobs : List ImpactJob
  pub impact_answers : List (ImpactJob × List ImpactFinding)
  pub pending_impacts : List (String × List String)
  pub decisions : List (String × List ImpactFinding)
  pub removed_intents : List String
  pub fatal : Option Fatal
  pub faults : List Bool

-- What the scheduler is given: the limits (those of `effective_limits`), the path of each source, whether there is an impact
-- reviewer, and the functions of other packages that it calls: strings.ToLower, and SHA-256 in hex.
pub record Env : Type 0 where
  pub limits : Limits
  pub source_of : ℕ → String
  pub has_assessor : Bool
  pub to_lower : String → String
  pub text_sha256 : List String → String

-- What a worker answers, the error as errors.As and errors.Is sort it.
pub data TaskOutcome : Type 0 where
  finished : ValidateResult → TaskOutcome
  conflict : List String → String → TaskOutcome
  sync_failed : ValidateResult → String → TaskOutcome
  task_failed : Bool → String → TaskOutcome

abbrev pub set_state : String → SourceState → (String → SourceState) → String → SourceState
set_state source st states j = if source == j then st else states j

abbrev pub is_none : Option Fatal → Bool
is_none none = true
is_none (some f) = false

-- delete(activeConflictPaths, i).
abbrev pub release_paths : ℕ → List (ℕ × List String) → List (ℕ × List String)
release_paths i [] = []
release_paths i ((j, paths) ∷ held) =
    if j =ℕ i then release_paths i held else (j, paths) ∷ release_paths i held

-- fatalErr = err, if there is none yet.
abbrev pub or_fatal : Option Fatal → Fatal → Option Fatal
or_fatal none f = some f
or_fatal (some g) f = some g

-- saveBootstrapTaskState: whether it succeeds, and the faults after it.
abbrev pub save_state : List Bool → Bool × List Bool
save_state [] = (true, [])
save_state (fails ∷ faults) = (not fails, faults)

abbrev pub is_conflict_task : SourceTask → Bool
is_conflict_task t = ltb 0 t.conflict_attempts || ltb 0 (length t.conflict_paths)

abbrev pub of_index : ℕ → SourceTask → Bool
of_index i t = t.index =ℕ i
