-- ===== src/Scheduler/Events.antt =====
-- The main loop of the scheduler as a relation: each step is a case of the select, or the dispatch
-- before it when nothing runs.
use knowlega.Base.{◌≡◌, Bool, true, false, some, List, [], ◌∷◌, ◌⊎◌}
use knowlega.Scheduler.Types.{
  SourceTask, ImpactFinding, ImpactJob, Sched, Env, TaskOutcome, not_saved,
}
use knowlega.Scheduler.Dispatch.{dispatch}
use knowlega.Scheduler.Results.{on_result}
use knowlega.Scheduler.Impact.{Assessed, decided, on_impact}

abbrev pub InTasks : SourceTask → List SourceTask → Type 0
InTasks t [] = ⊥
InTasks t (u ∷ us) = (t ≡ u) ⊎ InTasks t us

-- if err := dispatch(); err != nil { fatalErr = err }, at the top of the loop.
abbrev pub redispatched : Sched × Bool → Sched
redispatched (s, true) = s
redispatched (s, false) = record s { fatal = some not_saved }

-- An answer of a worker is one of an active task; the reviewer answers its jobs in order.
pub data Step (env : Env) : Sched → Sched → Type 0 where
  worker_answers :
      {s : Sched} (t : SourceTask) (outcome : TaskOutcome)
      → InTasks t s.active
      → Step env s (on_result env t outcome s)
  reviewer_answers :
      {s : Sched} (job : ImpactJob) (jobs : List ImpactJob) (answer : Assessed)
      → s.impact_jobs ≡ job ∷ jobs
      → Step env s (on_impact env job answer (record s { impact_jobs = jobs }))
  cache_answers :
      {s : Sched} (job : ImpactJob) (affected : List ImpactFinding)
      (answers : List (ImpactJob × List ImpactFinding))
      → s.impact_answers ≡ (job, affected) ∷ answers
      → Step env s (on_impact env job (decided affected) (record s { impact_answers = answers }))
  dispatches : {s : Sched} → Step env s (redispatched (dispatch env.limits env.source_of s))

pub data Steps (env : Env) : Sched → Sched → Type 0 where
  no_step : {s : Sched} → Steps env s s
  step_then : {s s' s'' : Sched} → Step env s s' → Steps env s' s'' → Steps env s s''
