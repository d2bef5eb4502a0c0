-- ===== src/Scheduler/Restored.antt =====
-- What a restart makes of the persisted state of a source.
use knowlega.Base.{
  ℕ, suc, ◌+◌, ◌≤◌, String, ◌≡◌, refl, sym, ◌||◌, inl, inr, Bool, true, false, arith, subst, ◌==◌,
  Bool-cases,
}
use knowlega.Scheduler.Types.{SourceState, Limits, Env, attempt_limit, conflicted}
use knowlega.Scheduler.Restart.{
  current_state, conflict_recovery, used_up, next_attempt, restored_task, Restored, refused,
  to_queue, to_conflicts, restore,
}
use knowlega.Scheduler.Sane.{TaskOk}

-- The numbers of a persisted state are beyond the limits by at most `extra`.
pub record StateOk (extra : ℕ) (l : Limits) (p : SourceState) : Type 0 where
  pub attempts_le : p.attempts ≤ attempt_limit l p.update_only + extra
  pub conflicts_le : p.conflict_attempts ≤ l.max_conflict_attempts + extra

current_state-Ok :
    {extra : ℕ} (l : Limits) (fingerprint : String) (p : SourceState)
    → StateOk extra l p
    → StateOk extra l (current_state fingerprint p)
unfolding current_state
current_state-Ok l fingerprint p h =
    elim (Bool-cases (p.input_fingerprint == "" || p.input_fingerprint == fingerprint)) [
      | inl e ↦ rw e (record { attempts_le = h.attempts_le; conflicts_le = h.conflicts_le })
      | inr e ↦ rw e (record { attempts_le = omega arith; conflicts_le = omega arith })
    ]

next_attempt-le :
    (env : Env) (forced : Bool) (p : SourceState) → next_attempt env forced p ≤ suc p.attempts
unfolding next_attempt
next_attempt-le env forced p = ground arith

restored_task-Ok :
    {extra : ℕ} (env : Env) (forced : Bool) (i : ℕ) (p : SourceState)
    → StateOk extra env.limits p
    → TaskOk extra env.limits (restored_task env forced i p)
unfolding restored_task
restored_task-Ok env forced i p h = record {
  attempt_le = omega (arith, next_attempt-le env forced p, h.attempts_le);
  conflicts_le = h.conflicts_le;
}

unfoldable pub RestoredOk : ℕ → Limits → Restored → Type 0
RestoredOk extra l (refused f) = Unit
RestoredOk extra l (to_queue t) = TaskOk extra l t
RestoredOk extra l (to_conflicts t p) = TaskOk extra l t × StateOk extra l p

restore-conflicted :
    (env : Env) (forced : Bool) (fingerprint source : String) (i : ℕ) (p : SourceState)
    → used_up env (current_state fingerprint p) ≡ false
    → conflict_recovery (current_state fingerprint p) ≡ true
    → restore env forced fingerprint source i p
      ≡ to_conflicts
          (restored_task env forced i (current_state fingerprint p))
          (record (current_state fingerprint p) { status = conflicted })
unfolding restore
restore-conflicted env forced fingerprint source i p e f = rw (e, f) refl

restore-queued :
    (env : Env) (forced : Bool) (fingerprint source : String) (i : ℕ) (p : SourceState)
    → used_up env (current_state fingerprint p) ≡ false
    → conflict_recovery (current_state fingerprint p) ≡ false
    → restore env forced fingerprint source i p
      ≡ to_queue (restored_task env forced i (current_state fingerprint p))
unfolding restore
restore-queued env forced fingerprint source i p e f = rw (e, f) refl

pub restore-Ok :
    {extra : ℕ} (env : Env) (forced : Bool) (fingerprint source : String) (i : ℕ) (p : SourceState)
    → StateOk extra env.limits p
    → RestoredOk extra env.limits (restore env forced fingerprint source i p)
unfolding restore RestoredOk
restore-Ok env forced fingerprint source i p h =
    let c = current_state-Ok env.limits fingerprint p h in
    let ok = restored_task-Ok env forced i (current_state fingerprint p) c in
    elim (Bool-cases (used_up env (current_state fingerprint p))) [
      | inl e ↦ rw e tt
      | inr e ↦ elim (Bool-cases (conflict_recovery (current_state fingerprint p))) [
        | inl f ↦
            subst (RestoredOk _ env.limits)
              (sym (restore-conflicted env forced fingerprint source i p e f))
              (ok, record { attempts_le = c.attempts_le; conflicts_le = c.conflicts_le })
        | inr f ↦
            subst (RestoredOk _ env.limits)
              (sym (restore-queued env forced fingerprint source i p e f)) ok
      ]
    ]
