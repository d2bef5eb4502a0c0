-- ===== src/Scheduler/Restart.antt =====
-- What the scheduler does before the first dispatch: the tasks that a restart finds, and the sources
-- whose page integration has to be done again.
use knowlega.Base.{
  ℕ, suc, String, Bool, true, false, not, ◌&&◌, ◌||◌, none, List, [], ◌∷◌, ◌++◌, map, ◌==◌, ltb,
  leb, if◌then◌else◌, length, any, elem,
}
use knowlega.Scheduler.Types.{
  SourceTask, TaskStatus, SourceState, no_state, attempt_limit, Fatal, Env, exhausted, new,
  processing, settled, failed, conflicted, pg_pending, transient, invalidated, impact_pending,
}
use knowlega.Scheduler.Texts.{is_persisted_transient}

pub record CommitIntent : Type 0 where
  pub source_path : String
  pub paths : List String

abbrev pub pending_keys : (String → String) → List String → List String
pending_keys key paths = map key paths

-- The sources that own one of the changed pages.
abbrev pub owner_keys : (String → String) → List String → List (String × List String) → List String
owner_keys key changed [] = []
owner_keys key changed ((source, files) ∷ manifest) =
    let rest = owner_keys key changed manifest in
    if any (λ f. elem f changed) files then key source ∷ rest else rest

-- forceOnRecovery: the keys of the sources that a pending impact or a commit intent names, and of
-- those that own a page of an intent. `key` is sourceManifestKey, `manifest` the files of each source.
unfoldable pub recovery_keys :
    (String → String)
    → List (String × List String)
    → List CommitIntent
    → List (String × List String)
    → List String
recovery_keys key [] [] manifest = []
recovery_keys key ((id, paths) ∷ pending) intents manifest =
    pending_keys key paths ++ recovery_keys key pending intents manifest
recovery_keys key [] (i ∷ intents) manifest =
    key i.source_path ∷ (owner_keys key i.paths manifest ++ recovery_keys key [] intents manifest)

abbrev pub is_status : TaskStatus → TaskStatus → Bool
is_status new new = true
is_status processing processing = true
is_status settled settled = true
is_status failed failed = true
is_status conflicted conflicted = true
is_status pg_pending pg_pending = true
is_status transient transient = true
is_status invalidated invalidated = true
is_status impact_pending impact_pending = true
is_status a b = false

-- The persisted state, forgotten when the inputs of the source have changed.
unfoldable pub current_state : String → SourceState → SourceState
current_state fingerprint previous =
    let same = record previous { input_fingerprint = fingerprint } in
    if previous.input_fingerprint == "" || previous.input_fingerprint == fingerprint
    then same
    else record no_state { input_fingerprint = fingerprint }

unfoldable pub conflict_recovery : SourceState → Bool
conflict_recovery p =
    is_status p.status conflicted
    || (is_status p.status processing
        && ltb 0 p.conflict_attempts
        && ltb 0 (length p.conflict_paths))

unfoldable pub transient_recovery : (String → String) → SourceState → Bool
unfolding is_persisted_transient
transient_recovery to_lower p =
    is_status p.status transient
    || ((is_status p.status failed || is_status p.status invalidated)
        && is_persisted_transient to_lower p.reason)

unfoldable pub used_up : Env → SourceState → Bool
unfolding transient_recovery
used_up env p =
    not (is_status p.status settled)
    && not (is_status p.status processing)
    && not (conflict_recovery p)
    && not (transient_recovery env.to_lower p)
    && leb (attempt_limit env.limits p.update_only) p.attempts

unfoldable pub must_force : Env → Bool → SourceState → Bool
unfolding transient_recovery
must_force env forced p =
    forced
    || is_status p.status processing
    || is_status p.status invalidated
    || is_status p.status conflicted
    || is_status p.status impact_pending
    || transient_recovery env.to_lower p

-- An interrupted attempt is resumed under its number.
unfoldable pub next_attempt : Env → Bool → SourceState → ℕ
unfolding must_force transient_recovery
next_attempt env forced p =
    if ltb 0 p.attempts
    then (if not (conflict_recovery p)
          && not (transient_recovery env.to_lower p)
          && not (is_status p.status processing)
          && (must_force env forced p || not (is_status p.status settled))
        then suc p.attempts
        else p.attempts)
    else 1

-- What becomes of a source: the run ends, or its task goes to the queue or the conflict retries.
pub data Restored : Type 0 where
  refused : Fatal → Restored
  to_queue : SourceTask → Restored
  to_conflicts : SourceTask → SourceState → Restored

unfoldable pub restored_task : Env → Bool → ℕ → SourceState → SourceTask
unfolding next_attempt must_force
restored_task env forced i p = record {
  index = i;
  attempt = next_attempt env forced p;
  force = must_force env forced p;
  sync_only = none;
  update_only = p.update_only;
  fingerprint = p.input_fingerprint;
  conflict_attempts = p.conflict_attempts;
  conflict_paths = p.conflict_paths;
}

unfoldable pub restore : Env → Bool → String → String → ℕ → SourceState → Restored
unfolding current_state used_up restored_task
restore env forced fingerprint source i previous =
    let p = current_state fingerprint previous in
    let task = restored_task env forced i p in
    if used_up env p
    then refused (
        exhausted source p.attempts (
          if p.reason == ""
          then "source task attempts exhausted without a recorded error"
          else p.reason))
    else if conflict_recovery p
    then to_conflicts task (record p { status = conflicted })
    else to_queue task
