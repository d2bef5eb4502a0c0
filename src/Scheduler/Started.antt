-- ===== src/Scheduler/Started.antt =====
-- What a restart makes of the persisted states, and what holds in every run.
use knowlega.Base.{
  ℕ, suc, String, ◌≡◌, ◌||◌, inl, inr, Bool, true, false, Option, List, [], ◌∷◌, arith, subst, ◌==◌,
  elem, All, All-append, Bool-cases, Option-cases,
}
use knowlega.Scheduler.Types.{
  SourceState, no_state, Limits, Sched, Env, ImpactFinding, save_state, set_state,
}
use knowlega.Scheduler.Dispatch.{dispatch}
use knowlega.Scheduler.Restart.{Restored, refused, to_queue, to_conflicts, restore}
use knowlega.Scheduler.StartRun.{
  Queues, Restart, ready, stopped, with_restored, forget, restore_all, allowed_states, first_state,
  first_dispatch, save_first, then_start, start_run,
}
use knowlega.Scheduler.Events.{Steps}
use knowlega.Scheduler.Sane.{TaskOk, Sane, dispatch-Sane}
use knowlega.Scheduler.SaneSteps.{Steps-Sane}
use knowlega.Scheduler.Restored.{StateOk, RestoredOk, restore-Ok}

record QueuesOk (extra : ℕ) (l : Limits) (q : Queues) : Type 0 where
  queued : All (TaskOk extra l) q.queue
  retries : All (TaskOk extra l) q.conflict_queue
  states_ok : (source : String) → StateOk extra l (q.states source)

AnswerOk : {A : Type 0} → (A → Type 0) → Restart A → Type 0
AnswerOk P (ready a) = P a
AnswerOk P (stopped e) = Unit

no_state-Ok : {extra : ℕ} (l : Limits) → StateOk extra l no_state
no_state-Ok l = record { attempts_le = omega arith; conflicts_le = omega arith }

set_state-Ok :
    {extra : ℕ} (l : Limits) (source : String) (p : SourceState) (states : String → SourceState)
    (j : String)
    → StateOk extra l p
    → StateOk extra l (states j)
    → StateOk extra l (set_state source p states j)
set_state-Ok l source p states j h k = elim (Bool-cases (source == j)) [
  | inl e ↦ rw e h
  | inr e ↦ rw e k
]

forget-Ok :
    {extra : ℕ} (l : Limits) (source fingerprint : String) (states : String → SourceState)
    (j : String)
    → StateOk extra l (states j)
    → StateOk extra l (forget source fingerprint states j)
unfolding forget
forget-Ok l source fingerprint states j h =
    elim (Bool-cases (
      (states source).input_fingerprint == ""
      || (states source).input_fingerprint == fingerprint)) [
        | inl e ↦ rw e h
        | inr e ↦ rw e (set_state-Ok l source no_state states j (no_state-Ok l) h)
      ]

with_restored-Ok :
    {extra : ℕ} (l : Limits) (r : Restored) (source : String) (rest : Queues → Restart Queues)
    (q : Queues)
    → ((q' : Queues) → QueuesOk extra l q' → AnswerOk (QueuesOk extra l) (rest q'))
    → RestoredOk extra l r
    → QueuesOk extra l q
    → AnswerOk (QueuesOk extra l) (with_restored r source rest q)
unfolding AnswerOk RestoredOk
with_restored-Ok l (refused f) source rest q k h ok = tt
with_restored-Ok l (to_queue t) source rest q k h ok = k _ (record {
  queued = All-append (TaskOk _ l) q.queue (t ∷ []) ok.queued (h, tt);
  retries = ok.retries;
  states_ok = ok.states_ok;
})
with_restored-Ok l (to_conflicts t p) source rest q k h ok = k _ (record {
  queued = ok.queued;
  retries = All-append (TaskOk _ l) q.conflict_queue (t ∷ []) ok.retries (h.0, tt);
  states_ok = λ j. set_state-Ok l source p q.states j h.1 (ok.states_ok j);
})

restore_all-Ok :
    {extra : ℕ} (env : Env) (fingerprint_of : String → Option String) (forced : String → Bool)
    (i : ℕ) (sources : List String) (q : Queues)
    → QueuesOk extra env.limits q
    → AnswerOk (QueuesOk extra env.limits) (restore_all env fingerprint_of forced i sources q)
unfolding restore_all
restore_all-Ok env fingerprint_of forced i [] q h = unfold AnswerOk in h
restore_all-Ok env fingerprint_of forced i (source ∷ sources) q h =
    elim (Option-cases (fingerprint_of source)) [
      | inl e ↦ rw (e, restore_all) (unfold AnswerOk in tt)
      | inr (fingerprint, e) ↦
          rw (e, restore_all)
            (with_restored-Ok env.limits
              (restore env (forced source) fingerprint source i (q.states source)) source
              (restore_all env fingerprint_of forced (suc i) sources)
              (record q { states = forget source fingerprint q.states })
              (λ q' ok. restore_all-Ok env fingerprint_of forced (suc i) sources q' ok)
              (restore-Ok env (forced source) fingerprint source i (q.states source)
                (h.states_ok source))
              (record {
                queued = h.queued;
                retries = h.retries;
                states_ok = λ j. forget-Ok env.limits source fingerprint q.states j (h.states_ok j);
              }))
    ]

save_first-Sane :
    {extra : ℕ} (env : Env) (s : Sched)
    → Sane extra env.limits s
    → AnswerOk (Sane extra env.limits) (save_first env s)
unfolding save_first
save_first-Sane env s h = elim (Bool-cases (save_state s.faults).0) [
  | inr e ↦ rw e (unfold AnswerOk in tt)
  | inl e ↦ rw e (
      dispatched (dispatch env.limits env.source_of (record s { faults = (save_state s.faults).1 }))
        (dispatch-Sane env.limits env.source_of (record s { faults = (save_state s.faults).1 })
          (record {
            within = h.within;
            apart = h.apart;
            queued = h.queued;
            retries = h.retries;
            running = h.running;
          })))
]
  where
    dispatched :
        {extra : ℕ} (p : Sched × Bool)
        → Sane extra env.limits p.0
        → AnswerOk (Sane extra env.limits) (first_dispatch p)
    dispatched (s, true) h = unfold AnswerOk in h
    dispatched (s, false) h = unfold AnswerOk in tt

allowed_states-Ok :
    {extra : ℕ} (l : Limits) (sources : List String) (states : String → SourceState)
    (source : String)
    → StateOk extra l (states source)
    → StateOk extra l (allowed_states sources states source)
unfolding allowed_states
allowed_states-Ok l sources states source h = elim (Bool-cases (elem source sources)) [
  | inl e ↦ rw e h
  | inr e ↦ rw e (no_state-Ok l)
]

then_start-Sane :
    (extra : ℕ) (env : Env) (decisions : List (String × List ImpactFinding)) (faults : List Bool)
    (r : Restart Queues)
    → AnswerOk (QueuesOk extra env.limits) r
    → AnswerOk (Sane extra env.limits) (then_start env decisions faults r)
unfolding AnswerOk then_start
then_start-Sane extra env decisions faults (stopped e) h = tt
then_start-Sane extra env decisions faults (ready q) h =
    save_first-Sane env (first_state q decisions faults) (record {
      within = omega arith;
      apart = tt;
      queued = h.queued;
      retries = h.retries;
      running = tt;
    })

start_run-Sane :
    {extra : ℕ} (env : Env) (fingerprint_of : String → Option String) (forced : String → Bool)
    (sources : List String) (states : String → SourceState)
    (decisions : List (String × List ImpactFinding)) (faults : List Bool)
    → ((source : String) → StateOk extra env.limits (states source))
    → AnswerOk
        (Sane extra env.limits)
        (start_run env fingerprint_of forced sources states decisions faults)
unfolding start_run
start_run-Sane env fingerprint_of forced sources states decisions faults h =
    then_start-Sane _ env decisions faults _ (
      restore_all-Ok env fingerprint_of forced 0 sources _ (record {
        queued = tt;
        retries = tt;
        states_ok = λ j. allowed_states-Ok env.limits sources states j (h j);
      }))

-- In every run of the scheduler that starts, after any answers of the workers and of the reviewer and
-- any failed saves: at most `concurrency` tasks are active; the recorded paths are the conflict paths
-- of active tasks and pairwise disjoint; and no task that waits or is active has an attempt beyond one
-- more than its limit, or more conflict attempts than allowed, except by the number `extra` by which
-- the persisted states are beyond the limits.
pub run-Sane :
    (extra : ℕ) (env : Env) (fingerprint_of : String → Option String) (forced : String → Bool)
    (sources : List String) (states : String → SourceState)
    (decisions : List (String × List ImpactFinding)) (faults : List Bool) (s s' : Sched)
    → ((source : String) → StateOk extra env.limits (states source))
    → start_run env fingerprint_of forced sources states decisions faults ≡ ready s
    → Steps env s s'
    → Sane extra env.limits s'
run-Sane extra env fingerprint_of forced sources states decisions faults s s' h e steps =
    Steps-Sane steps (
      of_ready (
        subst (AnswerOk (Sane extra env.limits)) e (
          start_run-Sane {extra = extra} env fingerprint_of forced sources states decisions faults
            h)))
  where
    of_ready :
        {extra : ℕ} {s : Sched}
        → AnswerOk (Sane extra env.limits) (ready s)
        → Sane extra env.limits s
    of_ready h = unfold AnswerOk in h
