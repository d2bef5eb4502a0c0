-- ===== src/Scheduler/SaneResults.antt =====
-- The answers of the workers keep the state sane.
use knowlega.Base.{
  ℕ, suc, ◌≤◌, String, ◌≡◌, refl, sym, subst, inl, inr, Bool, true, false, ◌&&◌, List, [], ◌∷◌,
  arith, ◌=ℕ◌, ltb, leb, length, All, All-append, Bool-cases, Option-cases,
}
use knowlega.Scheduler.Types.{
  SourceTask, TaskStatus, Limits, Sched, Env, TaskOutcome, ValidateResult, ImpactJob, attempt_limit,
  finished, conflict, sync_failed, task_failed, is_conflict_task,
}
use knowlega.Scheduler.Dispatch.{dispatch, note_fatal}
use knowlega.Scheduler.Texts.{is_transient}
use knowlega.Scheduler.Jobs.{build_impact_job}
use knowlega.Scheduler.Results.{
  end_one, end_active, requeue_conflict, requeue, requeue_either, settle, on_conflict, on_error,
  cached_decision, send_impact, on_settled, on_outcome, intent_of, save_after, on_result, retried,
}
use knowlega.Scheduler.Events.{InTasks}
use knowlega.Scheduler.Sane.{TaskOk, Sane, end_one-Apart, dispatch-Sane}

All-in :
    {extra : ℕ} (l : Limits) (t : SourceTask) (tasks : List SourceTask)
    → All (TaskOk extra l) tasks
    → InTasks t tasks
    → TaskOk extra l t
All-in l t [] h m = elim m [ ]
All-in l t (u ∷ us) h (inl e) = subst (TaskOk _ l) (sym e) h.0
All-in l t (u ∷ us) h (inr m) = All-in l t us h.1 m

end_one-All :
    (extra : ℕ) (l : Limits) (i : ℕ) (tasks : List SourceTask)
    → All (TaskOk extra l) tasks
    → All (TaskOk extra l) (end_one i tasks)
end_one-All extra l i [] h = h
end_one-All extra l i (t ∷ tasks) h = elim (Bool-cases (t.index =ℕ i)) [
  | inl e ↦ rw e h.1
  | inr e ↦ rw e (h.0, end_one-All extra l i tasks h.1)
]

length-end_one : (i : ℕ) (tasks : List SourceTask) → length (end_one i tasks) ≤ length tasks
length-end_one i [] = omega arith
length-end_one i (t ∷ tasks) = elim (Bool-cases (t.index =ℕ i)) [
  | inl e ↦ rw e (omega arith)
  | inr e ↦ rw e (omega (arith, length-end_one i tasks))
]

end_active-Sane :
    {extra : ℕ} (l : Limits) (t : SourceTask) (s : Sched)
    → Sane extra l s
    → Sane extra l (end_active t s)
unfolding end_active
end_active-Sane l t s h = record {
  within = omega (arith, length-end_one t.index s.active, h.within);
  apart = end_one-Apart t.index s.active s.held h.apart;
  queued = h.queued;
  retries = h.retries;
  running = end_one-All _ l t.index s.active h.running;
}

requeue-Sane :
    {extra : ℕ} (env : Env) (t next : SourceTask) (status : TaskStatus) (reason : String)
    (s : Sched)
    → TaskOk extra env.limits next
    → Sane extra env.limits s
    → Sane extra env.limits (requeue env t next status reason s)
unfolding requeue
requeue-Sane env t next status reason s ok h = record {
  within = h.within;
  apart = h.apart;
  queued = All-append (TaskOk _ env.limits) s.queue (next ∷ []) h.queued (ok, tt);
  retries = h.retries;
  running = h.running;
}

requeue_conflict-Sane :
    {extra : ℕ} (env : Env) (t next : SourceTask) (reason : String) (s : Sched)
    → TaskOk extra env.limits next
    → Sane extra env.limits s
    → Sane extra env.limits (requeue_conflict env t next reason s)
unfolding requeue_conflict
requeue_conflict-Sane env t next reason s ok h = record {
  within = h.within;
  apart = h.apart;
  queued = h.queued;
  retries = All-append (TaskOk _ env.limits) s.conflict_queue (next ∷ []) h.retries (ok, tt);
  running = h.running;
}

requeue_either-Sane :
    {extra : ℕ} (env : Env) (t next : SourceTask) (status : TaskStatus) (reason : String)
    (s : Sched)
    → TaskOk extra env.limits next
    → Sane extra env.limits s
    → Sane extra env.limits (requeue_either env t next status reason s)
unfolding requeue_either
requeue_either-Sane env t next status reason s ok h = elim (Bool-cases (is_conflict_task next)) [
  | inl e ↦ rw e (requeue_conflict-Sane env t next reason s ok h)
  | inr e ↦ rw e (requeue-Sane env t next status reason s ok h)
]

-- The same queues and active tasks.
pub record Same (s s' : Sched) : Type 0 where
  pub active_eq : s'.active ≡ s.active
  pub held_eq : s'.held ≡ s.held
  pub queue_eq : s'.queue ≡ s.queue
  pub conflict_eq : s'.conflict_queue ≡ s.conflict_queue

pub Same-Sane :
    {extra : ℕ} (l : Limits) (s s' : Sched) → Same s s' → Sane extra l s → Sane extra l s'
Same-Sane l s s' e h = record {
  within = rw e.active_eq h.within;
  apart = rw (e.held_eq, e.active_eq) h.apart;
  queued = rw e.queue_eq h.queued;
  retries = rw e.conflict_eq h.retries;
  running = rw e.active_eq h.running;
}

pub same : (s : Sched) → Same s s
same s = record { active_eq = refl; held_eq = refl; queue_eq = refl; conflict_eq = refl }

on_conflict-Sane :
    {extra : ℕ} (env : Env) (t : SourceTask) (paths : List String) (reason : String) (s : Sched)
    → TaskOk extra env.limits t
    → Sane extra env.limits s
    → Sane extra env.limits (on_conflict env t paths reason s)
unfolding on_conflict
on_conflict-Sane env t paths reason s ok h =
    elim (Bool-cases (leb env.limits.max_conflict_attempts t.conflict_attempts)) [
      | inl e ↦ rw e (record {
        within = h.within;
        apart = h.apart;
        queued = h.queued;
        retries = h.retries;
        running = h.running;
      })
      | inr e ↦ rw e (
          requeue_conflict-Sane env t _ reason s
            (record { attempt_le = ok.attempt_le; conflicts_le = ground (arith, e) }) h)
    ]

on_error-Sane :
    {extra : ℕ} (env : Env) (t : SourceTask) (deadline : Bool) (reason : String) (s : Sched)
    → TaskOk extra env.limits t
    → Sane extra env.limits s
    → Sane extra env.limits (on_error env t deadline reason s)
unfolding on_error
on_error-Sane env t deadline reason s ok h =
    elim (Bool-cases (is_transient env.to_lower deadline reason)) [
      | inl e ↦ rw e (
          requeue_either-Sane env t (retried t t.attempt) _ reason s
            (record { attempt_le = ok.attempt_le; conflicts_le = ok.conflicts_le }) h)
      | inr e ↦ elim (Bool-cases (leb (attempt_limit env.limits t.update_only) t.attempt)) [
        | inl f ↦
            rw (e, f)
              (record {
                within = h.within;
                apart = h.apart;
                queued = h.queued;
                retries = h.retries;
                running = h.running;
              })
        | inr f ↦
            rw (e, f)
              (requeue_either-Sane env t (retried t (suc t.attempt)) _ reason s
                (record { attempt_le = ground (arith, f); conflicts_le = ok.conflicts_le }) h)
      ]
    ]

send_impact-Same : (job : ImpactJob) (s : Sched) → Same s (send_impact job s)
unfolding send_impact
send_impact-Same job s = elim (Option-cases (cached_decision job.id s.decisions)) [
  | inl e ↦
      rw (e, send_impact)
        (record { active_eq = refl; held_eq = refl; queue_eq = refl; conflict_eq = refl })
  | inr (d, e) ↦
      rw (e, send_impact)
        (record { active_eq = refl; held_eq = refl; queue_eq = refl; conflict_eq = refl })
]

on_settled-Same :
    (env : Env) (t : SourceTask) (r : ValidateResult) (s : Sched) → Same s (on_settled env t r s)
unfolding on_settled settle
on_settled-Same env t r s =
    elim (Bool-cases (
      env.has_assessor
      && ltb 0 (length r.page_changes)
      && ltb 0 (
          length
            (build_impact_job env (env.source_of t.index) r
              (settle env t r s).settled).candidates))) [
                | inl e ↦ rw e (record {
                  active_eq = (send_impact-Same _ (settle env t r s)).active_eq;
                  held_eq = (send_impact-Same _ (settle env t r s)).held_eq;
                  queue_eq = (send_impact-Same _ (settle env t r s)).queue_eq;
                  conflict_eq = (send_impact-Same _ (settle env t r s)).conflict_eq;
                })
                | inr e ↦ rw e (record {
                  active_eq = refl;
                  held_eq = refl;
                  queue_eq = refl;
                  conflict_eq = refl;
                })
              ]

on_outcome-Sane :
    {extra : ℕ} (env : Env) (t : SourceTask) (o : TaskOutcome) (s : Sched)
    → TaskOk extra env.limits t
    → Sane extra env.limits s
    → Sane extra env.limits (on_outcome env t o s)
unfolding on_outcome
on_outcome-Sane env t (conflict paths reason) s ok h = on_conflict-Sane env t paths reason s ok h
on_outcome-Sane env t (sync_failed r reason) s ok h =
    requeue-Sane env t _ _ reason s
      (record { attempt_le = ok.attempt_le; conflicts_le = omega arith }) h
on_outcome-Sane env t (task_failed deadline reason) s ok h =
    on_error-Sane env t deadline reason s ok h
on_outcome-Sane env t (finished r) s ok h = Same-Sane env.limits s _ (on_settled-Same env t r s) h

save_after-Same : (intent : String) (s : Sched) → Same s (save_after intent s)
unfolding save_after
save_after-Same intent s = ground arith

note_fatal-Same : (p : Sched × Bool) → Same p.0 (note_fatal p)
note_fatal-Same (s, true) = same s
note_fatal-Same (s, false) = record {
  active_eq = refl;
  held_eq = refl;
  queue_eq = refl;
  conflict_eq = refl;
}

pub dispatched-Sane :
    {extra : ℕ} (env : Env) (s : Sched)
    → Sane extra env.limits s
    → Sane extra env.limits (note_fatal (dispatch env.limits env.source_of s))
dispatched-Sane env s h =
    Same-Sane env.limits _ _ (note_fatal-Same (dispatch env.limits env.source_of s))
      (dispatch-Sane env.limits env.source_of s h)

pub on_result-Sane :
    {extra : ℕ} (env : Env) (t : SourceTask) (o : TaskOutcome) (s : Sched)
    → InTasks t s.active
    → Sane extra env.limits s
    → Sane extra env.limits (on_result env t o s)
unfolding on_result
on_result-Sane env t o s m h = dispatched-Sane env _ (
    Same-Sane env.limits _ _ (save_after-Same (intent_of o) (on_outcome env t o (end_active t s))) (
      on_outcome-Sane env t o (end_active t s) (All-in env.limits t s.active h.running m)
        (end_active-Sane env.limits t s h)))
