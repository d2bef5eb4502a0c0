-- ===== src/Scheduler/Impact.antt =====
-- What the scheduler does with the answer of the impact reviewer: the second case of the select in
-- validateLLMWikiSourcesConcurrent.
use knowlega.Base.{
  ℕ, suc, String, Bool, true, false, ◌||◌, Option, none, some, List, [], ◌∷◌, ◌++◌, map, ◌==◌, leb,
  ◌=ℕ◌, if◌then◌else◌,
}
use knowlega.Scheduler.Types.{
  ValidateResult, SourceTask, update_state, attempt_limit, ImpactFinding, ImpactJob, Sched, Env,
  set_state, or_fatal, not_saved, save_state, exhausted, assess_failed, failed, invalidated,
}
use knowlega.Scheduler.Dispatch.{dispatch, note_fatal}
use knowlega.Scheduler.Texts.{sorted_unique, is_transient}
use knowlega.Scheduler.Results.{drop_pending, set_pending, without}

pub data Assessed : Type 0 where
  assess_error : Bool → String → Assessed
  decided : List ImpactFinding → Assessed

abbrev pub candidate_index : String → List (String × ℕ) → Option ℕ
candidate_index source [] = none
candidate_index source ((c, i) ∷ candidates) =
    if c == source then some i else candidate_index source candidates

abbrev pub is_settled : ℕ → List (ℕ × ValidateResult) → Bool
is_settled i [] = false
is_settled i ((j, r) ∷ results) = j =ℕ i || is_settled i results

-- A settled source that a finding names is integrated again, unless its attempts are used up.
unfoldable pub reintegrate : Env → ImpactFinding → ℕ → Sched → Sched
unfolding update_state
reintegrate env finding i s =
    let source = finding.source_path in
    let previous = s.states source in
    let unsettled = record s { settled = without i s.settled } in
    if leb env.limits.max_impact_attempts previous.impact_attempts
      || leb (attempt_limit env.limits true) previous.attempts
    then record unsettled {
      fatal = some (exhausted source previous.attempts finding.reason);
      states =
          set_state source
            (update_state failed previous.attempts finding.reason previous.input_fingerprint true
              previous)
            s.states;
    }
    else let noted =
        update_state invalidated previous.attempts finding.reason previous.input_fingerprint true
          previous in
      let next : SourceTask = record {
        index = i;
        attempt = suc previous.attempts;
        force = true;
        sync_only = none;
        update_only = true;
        fingerprint = previous.input_fingerprint;
        conflict_attempts = 0;
        conflict_paths = [];
      } in
      record unsettled {
        queue = s.queue ++ next ∷ [];
        states =
            set_state source (record noted { impact_attempts = suc previous.impact_attempts })
              s.states;
      }

-- The findings on sources that are no candidates, or no longer settled, are passed over.
unfoldable pub apply_finding : Env → ImpactJob → ImpactFinding → Sched → Sched
unfolding reintegrate
apply_finding env job finding s = elim (candidate_index finding.source_path job.candidates) [
  | none ↦ s
  | some i ↦ if is_settled i s.settled then reintegrate env finding i s else s
]

unfoldable pub apply_findings : Env → ImpactJob → List ImpactFinding → Sched → Sched
unfolding apply_finding
apply_findings env job [] s = s
apply_findings env job (f ∷ findings) s =
    apply_findings env job findings (apply_finding env job f s)

abbrev pub set_decision :
    String
    → List ImpactFinding
    → List (String × List ImpactFinding)
    → List (String × List ImpactFinding)
set_decision id d decisions = (id, d) ∷ decisions

-- A transient error sends the job again; a decision is recorded and applied.
unfoldable pub on_assessed : Env → ImpactJob → Assessed → Sched → Sched
unfolding is_transient sorted_unique apply_findings
on_assessed env job (assess_error deadline reason) s =
    if is_transient env.to_lower deadline reason
    then record s {
      impact_jobs =
          s.impact_jobs ++ record job { transient_attempts = suc job.transient_attempts } ∷ [];
      pending_impacts =
          set_pending job.id
            (sorted_unique (job.changed_source ∷ map (λ (c : String × ℕ). c.0) job.candidates))
            s.pending_impacts;
    }
    else elim s.fatal [
      | none ↦ record s {
        pending_impacts = drop_pending job.id s.pending_impacts;
        fatal = some (assess_failed reason);
      }
      | some f ↦ s
    ]
on_assessed env job (decided affected) s = apply_findings env job affected (record s {
  pending_impacts = drop_pending job.id s.pending_impacts;
  decisions = set_decision job.id affected s.decisions;
})

unfoldable pub save_assessed : Sched → Sched
save_assessed s =
    let (saved, faults) = save_state s.faults in
    if saved
    then record s { faults = faults }
    else record s { faults = faults; fatal = or_fatal s.fatal not_saved }

-- `assessed := <-impactResults`, when the job has been taken from the channel.
unfoldable pub on_impact : Env → ImpactJob → Assessed → Sched → Sched
unfolding on_assessed save_assessed dispatch
on_impact env job answer s =
    note_fatal (dispatch env.limits env.source_of (save_assessed (on_assessed env job answer s)))
