-- ===== src/Scheduler/SaneSteps.antt =====
-- Every step of the scheduler keeps its state sane, and a run starts sane.
use knowlega.Base.{
  ℕ, refl, ◌||◌, inl, inr, Bool, true, false, List, [], ◌∷◌, arith, leb, All-append, Bool-cases,
  Option-cases,
}
use knowlega.Scheduler.Types.{Sched, Env, ImpactFinding, ImpactJob, attempt_limit}
use knowlega.Scheduler.Dispatch.{dispatch}
use knowlega.Scheduler.Texts.{is_transient}
use knowlega.Scheduler.Impact.{
  Assessed, assess_error, decided, candidate_index, is_settled, reintegrate, apply_finding,
  apply_findings, on_assessed, save_assessed, on_impact,
}
use knowlega.Scheduler.Events.{
  redispatched, Step, worker_answers, reviewer_answers, cache_answers, dispatches, Steps, no_step,
  step_then,
}
use knowlega.Scheduler.Sane.{TaskOk, Sane, dispatch-Sane}
use knowlega.Scheduler.SaneResults.{Same, Same-Sane, same, dispatched-Sane, on_result-Sane}

reintegrate-Sane :
    {extra : ℕ} (env : Env) (f : ImpactFinding) (i : ℕ) (s : Sched)
    → Sane extra env.limits s
    → Sane extra env.limits (reintegrate env f i s)
unfolding reintegrate
reintegrate-Sane env f i s h =
    elim (Bool-cases (
      leb env.limits.max_impact_attempts (s.states f.source_path).impact_attempts
      || leb (attempt_limit env.limits true) (s.states f.source_path).attempts)) [
        | inl e ↦ rw e (record {
          within = h.within;
          apart = h.apart;
          queued = h.queued;
          retries = h.retries;
          running = h.running;
        })
        | inr e ↦ rw e (record {
          within = h.within;
          apart = h.apart;
          queued =
              All-append (TaskOk _ env.limits) s.queue _ h.queued
                (record { attempt_le = ground (arith, e); conflicts_le = omega arith }, tt);
          retries = h.retries;
          running = h.running;
        })
      ]

apply_finding-Sane :
    {extra : ℕ} (env : Env) (job : ImpactJob) (f : ImpactFinding) (s : Sched)
    → Sane extra env.limits s
    → Sane extra env.limits (apply_finding env job f s)
unfolding apply_finding
apply_finding-Sane env job f s h =
    elim (Option-cases (candidate_index f.source_path job.candidates)) [
      | inl e ↦ rw (e, apply_finding) h
      | inr (i, e) ↦ elim (Bool-cases (is_settled i s.settled)) [
        | inl d ↦ rw (e, apply_finding, d) (reintegrate-Sane env f i s h)
        | inr d ↦ rw (e, apply_finding, d) h
      ]
    ]

apply_findings-Sane :
    {extra : ℕ} (env : Env) (job : ImpactJob) (fs : List ImpactFinding) (s : Sched)
    → Sane extra env.limits s
    → Sane extra env.limits (apply_findings env job fs s)
unfolding apply_findings
apply_findings-Sane env job [] s h = h
apply_findings-Sane env job (f ∷ fs) s h =
    apply_findings-Sane env job fs (apply_finding env job f s) (apply_finding-Sane env job f s h)

on_assessed-Sane :
    {extra : ℕ} (env : Env) (job : ImpactJob) (answer : Assessed) (s : Sched)
    → Sane extra env.limits s
    → Sane extra env.limits (on_assessed env job answer s)
unfolding on_assessed
on_assessed-Sane env job (decided affected) s h = apply_findings-Sane env job affected _ (record {
  within = h.within;
  apart = h.apart;
  queued = h.queued;
  retries = h.retries;
  running = h.running;
})
on_assessed-Sane env job (assess_error deadline reason) s h =
    elim (Bool-cases (is_transient env.to_lower deadline reason)) [
      | inl e ↦ rw e (record {
        within = h.within;
        apart = h.apart;
        queued = h.queued;
        retries = h.retries;
        running = h.running;
      })
      | inr e ↦ elim (Option-cases s.fatal) [
        | inl o ↦
            rw (e, o, on_assessed)
              (record {
                within = h.within;
                apart = h.apart;
                queued = h.queued;
                retries = h.retries;
                running = h.running;
              })
        | inr (f, o) ↦ rw (e, o, on_assessed) h
      ]
    ]

save_assessed-Same : (s : Sched) → Same s (save_assessed s)
unfolding save_assessed
save_assessed-Same s = ground arith

on_impact-Sane :
    {extra : ℕ} (env : Env) (job : ImpactJob) (answer : Assessed) (s : Sched)
    → Sane extra env.limits s
    → Sane extra env.limits (on_impact env job answer s)
unfolding on_impact
on_impact-Sane env job answer s h = dispatched-Sane env _ (
    Same-Sane env.limits _ _ (save_assessed-Same (on_assessed env job answer s))
      (on_assessed-Sane env job answer s h))

redispatched-Same : (p : Sched × Bool) → Same p.0 (redispatched p)
redispatched-Same (s, true) = same s
redispatched-Same (s, false) = record {
  active_eq = refl;
  held_eq = refl;
  queue_eq = refl;
  conflict_eq = refl;
}

pub Step-Sane :
    {extra : ℕ} {env : Env} {s s' : Sched}
    → Step env s s'
    → Sane extra env.limits s
    → Sane extra env.limits s'
Step-Sane {env} {s} (worker_answers t outcome m) h = on_result-Sane env t outcome s m h
Step-Sane {env} {s} (reviewer_answers job jobs answer e) h =
    on_impact-Sane env job answer _ (record {
      within = h.within;
      apart = h.apart;
      queued = h.queued;
      retries = h.retries;
      running = h.running;
    })
Step-Sane {env} {s} (cache_answers job affected answers e) h =
    on_impact-Sane env job (decided affected) _ (record {
      within = h.within;
      apart = h.apart;
      queued = h.queued;
      retries = h.retries;
      running = h.running;
    })
Step-Sane {env} {s} dispatches h =
    Same-Sane env.limits _ _ (redispatched-Same (dispatch env.limits env.source_of s))
      (dispatch-Sane env.limits env.source_of s h)

pub Steps-Sane :
    {extra : ℕ} {env : Env} {s s' : Sched}
    → Steps env s s'
    → Sane extra env.limits s
    → Sane extra env.limits s'
Steps-Sane no_step h = h
Steps-Sane (step_then st sts) h = Steps-Sane sts (Step-Sane st h)
