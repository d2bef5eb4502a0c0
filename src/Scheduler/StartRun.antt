-- ===== src/Scheduler/StartRun.antt =====
-- The loop over the sources before the main loop, and the first dispatch (scheduler.go).
use knowlega.Base.{
  ℕ, suc, String, Bool, true, false, ◌||◌, Option, none, some, List, [], ◌∷◌, ◌++◌, ◌==◌,
  if◌then◌else◌, elem,
}
use knowlega.Scheduler.Types.{
  SourceTask, SourceState, no_state, Fatal, Env, set_state, Sched, ImpactFinding, save_state,
}
use knowlega.Scheduler.Dispatch.{dispatch}
use knowlega.Scheduler.Restart.{Restored, refused, to_queue, to_conflicts, restore}

-- The queues that the loop over the sources fills, and the states.
pub record Queues : Type 0 where
  pub queue : List SourceTask
  pub conflict_queue : List SourceTask
  pub states : String → SourceState

-- The state file as the loop leaves it: a changed fingerprint forgets the state, a conflict retry
-- is persisted as one.
unfoldable pub forget : String → String → (String → SourceState) → String → SourceState
forget source fingerprint states =
    let p = states source in
    if p.input_fingerprint == "" || p.input_fingerprint == fingerprint
    then states
    else set_state source no_state states

-- Why no run starts: a source cannot be read, a source has no attempts left, the state is not saved.
pub data StartError : Type 0 where
  unreadable : String → StartError
  no_attempts : Fatal → StartError
  unsaved : StartError

pub data Restart (A : Type 0) : Type 0 where
  ready : A → Restart A
  stopped : StartError → Restart A

abbrev pub with_restored : Restored → String → (Queues → Restart Queues) → Queues → Restart Queues
with_restored (refused f) source rest q = stopped (no_attempts f)
with_restored (to_queue t) source rest q = rest (record q { queue = q.queue ++ t ∷ [] })
with_restored (to_conflicts t p) source rest q =
    rest (record q {
      conflict_queue = q.conflict_queue ++ t ∷ [];
      states = set_state source p q.states;
    })

-- The loop over the sources, from index `i` on. `fingerprint_of` is sourceTaskInputFingerprint of the
-- source's hash and the limits, `forced` whether a recovery key names the source.
unfoldable pub restore_all :
    Env → (String → Option String) → (String → Bool) → ℕ → List String → Queues → Restart Queues
unfolding restore forget
restore_all env fingerprint_of forced i [] q = ready q
restore_all env fingerprint_of forced i (source ∷ sources) q = elim (fingerprint_of source) [
  | none ↦ stopped (unreadable source)
  | some fingerprint ↦
      with_restored (restore env (forced source) fingerprint source i (q.states source)) source
        (restore_all env fingerprint_of forced (suc i) sources)
        (record q { states = forget source fingerprint q.states })
]

-- The states of sources that are not in the run are deleted.
unfoldable pub allowed_states : List String → (String → SourceState) → String → SourceState
allowed_states sources states source = if elem source sources then states source else no_state

abbrev pub first_state : Queues → List (String × List ImpactFinding) → List Bool → Sched
first_state q decisions faults = record {
  queue = q.queue;
  conflict_queue = q.conflict_queue;
  active = [];
  held = [];
  settled = [];
  states = q.states;
  impact_jobs = [];
  impact_answers = [];
  pending_impacts = [];
  decisions = decisions;
  removed_intents = [];
  fatal = none;
  faults = faults;
}

abbrev pub first_dispatch : Sched × Bool → Restart Sched
first_dispatch (s, true) = ready s
first_dispatch (s, false) = stopped unsaved

unfoldable pub save_first : Env → Sched → Restart Sched
save_first env s =
    let (saved, faults) = save_state s.faults in
    if saved
    then first_dispatch (dispatch env.limits env.source_of (record s { faults = faults }))
    else stopped unsaved

unfoldable pub then_start :
    Env → List (String × List ImpactFinding) → List Bool → Restart Queues → Restart Sched
unfolding save_first
then_start env decisions faults (stopped e) = stopped e
then_start env decisions faults (ready q) = save_first env (first_state q decisions faults)

-- Everything up to the main loop.
unfoldable pub start_run :
    Env
    → (String → Option String)
    → (String → Bool)
    → List String
    → (String → SourceState)
    → List (String × List ImpactFinding)
    → List Bool
    → Restart Sched
unfolding restore_all allowed_states then_start
start_run env fingerprint_of forced sources states decisions faults =
    then_start env decisions faults (
      restore_all env fingerprint_of forced 0 sources
        (record { queue = []; conflict_queue = []; states = allowed_states sources states }))
