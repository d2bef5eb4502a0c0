-- ===== src/Scheduler/Unsynced.antt =====
-- A source whose pages are committed, and that only waits for the second store, keeps a run from
-- starting.
use knowlega.Base.{
  ℕ, suc, ◌≤◌, String, ◌≡◌, ◌≢◌, refl, sym, ap, ◌∙◌, ◌||◌, ◌⊎◌, inl, inr, Bool, true, false, Option,
  some, List, [], ◌∷◌, arith, eq_iff, ◌==◌, elem_iff, In, Bool-cases, Option-cases,
}
use knowlega.Scheduler.Types.{SourceState, Env, ImpactFinding, attempt_limit, exhausted, pg_pending}
use knowlega.Scheduler.Restart.{
  current_state, conflict_recovery, transient_recovery, used_up, Restored, refused, to_queue,
  to_conflicts, restore,
}
use knowlega.Scheduler.StartRun.{
  Queues, Restart, stopped, StartError, with_restored, forget, restore_all, allowed_states,
  then_start, start_run,
}

-- The commit was the last attempt, the synchronisation has failed, and the inputs are the same.
pub record Unsynced (env : Env) (fingerprint : String) (p : SourceState) : Type 0 where
  pub waits : p.status ≡ pg_pending
  pub same : p.input_fingerprint ≡ fingerprint
  pub failed : p.reason ≢ ""
  pub last : attempt_limit env.limits p.update_only ≤ p.attempts

restore-Unsynced :
    (env : Env) (forced : Bool) (fingerprint source : String) (i : ℕ) (p : SourceState)
    → Unsynced env fingerprint p
    → restore env forced fingerprint source i p ≡ refused (exhausted source p.attempts p.reason)
unfolding restore current_state used_up transient_recovery conflict_recovery
restore-Unsynced env forced fingerprint source i p u =
    let same : (p.input_fingerprint == fingerprint) ≡ true =
      (eq_iff p.input_fingerprint fingerprint).1 u.same in
    let told : (p.reason == "") ≡ false = ground (arith, u.failed, eq_iff p.reason "") in
    ground (arith, u.waits, same, told, u.last)

-- No run starts.
abbrev pub Stopped : {A : Type 0} → Restart A → Type 0
Stopped r = (e : StartError) × (r ≡ stopped e)

forget-other :
    (source fingerprint j : String) (states : String → SourceState)
    → (source == j) ≡ false
    → forget source fingerprint states j ≡ states j
unfolding forget
forget-other source fingerprint j states other =
    elim (Bool-cases (
      (states source).input_fingerprint == ""
      || (states source).input_fingerprint == fingerprint)) [
        | inl e ↦ rw e refl
        | inr e ↦ rw e (rw other refl)
      ]

with_restored-Stopped :
    (r : Restored) (source j : String) (p : SourceState) (rest : Queues → Restart Queues)
    (q : Queues)
    → (source == j) ≡ false
    → q.states j ≡ p
    → ((q' : Queues) → q'.states j ≡ p → Stopped (rest q'))
    → Stopped (with_restored r source rest q)
with_restored-Stopped (refused f) source j p rest q other is k = (_, refl)
with_restored-Stopped (to_queue t) source j p rest q other is k = k _ is
with_restored-Stopped (to_conflicts t p') source j p rest q other is k = k _ (rw other is)

restore_all-Stopped :
    (env : Env) (fingerprint_of : String → Option String) (forced : String → Bool) (i : ℕ)
    (sources : List String) (source fingerprint : String) (p : SourceState) (q : Queues)
    → In source sources
    → fingerprint_of source ≡ some fingerprint
    → Unsynced env fingerprint p
    → q.states source ≡ p
    → Stopped (restore_all env fingerprint_of forced i sources q)
unfolding restore_all
restore_all-Stopped env fingerprint_of forced i [] source fingerprint p q m f u is = absurd m
restore_all-Stopped env fingerprint_of forced i (head ∷ sources) source fingerprint p q m f u is =
    elim (Option-cases (fingerprint_of head)) [
      | inl e ↦ rw (e, restore_all) (_, refl)
      | inr (other, e) ↦ elim (Bool-cases (head == source)) [
        | inl here ↦
            let same : head ≡ source = (eq_iff head source).0 here in
            let at : q.states head ≡ p = rw same is in
            let known : other ≡ fingerprint = some-eq (sym e ∙ ap fingerprint_of same ∙ f) in
            let u' : Unsynced env other (q.states head) = rw (at, known) u in
            rw (e, restore_all)
              (rw (restore-Unsynced env (forced head) other head i (q.states head) u') (_, refl))
        | inr apart ↦
            rw (e, restore_all)
              (with_restored-Stopped _ head source p _ _ apart
                (forget-other head other source q.states apart ∙ is)
                (λ q' is'.
                  restore_all-Stopped env fingerprint_of forced (suc i) sources source fingerprint p
                    q' (later apart m) f u is'))
      ]
    ]
  where
    some-eq : {a b : String} → some a ≡ some b → a ≡ b
    some-eq h = cc

    later : (head == source) ≡ false → (source ≡ head) ⊎ In source sources → In source sources
    later apart (inl e) = absurd (ground (arith, apart, (eq_iff head source).1 (sym e)))
    later apart (inr n) = n

then_start-Stopped :
    (env : Env) (decisions : List (String × List ImpactFinding)) (faults : List Bool)
    (r : Restart Queues)
    → Stopped r
    → Stopped (then_start env decisions faults r)
unfolding then_start
then_start-Stopped env decisions faults r (e, is) = rw is (e, refl)

-- No run starts over sources of which one only waits for the second store, has the inputs from before
-- and a reason, and was committed by its last attempt.
pub start_run-Stopped :
    (env : Env) (fingerprint_of : String → Option String) (forced : String → Bool)
    (sources : List String) (states : String → SourceState)
    (decisions : List (String × List ImpactFinding)) (faults : List Bool)
    (source fingerprint : String)
    → In source sources
    → fingerprint_of source ≡ some fingerprint
    → Unsynced env fingerprint (states source)
    → Stopped (start_run env fingerprint_of forced sources states decisions faults)
unfolding start_run allowed_states
start_run-Stopped env fingerprint_of forced sources states decisions faults source fingerprint m f
      u =
    then_start-Stopped env decisions faults _ (
      restore_all-Stopped env fingerprint_of forced 0 sources source fingerprint (states source) _ m
        f u (rw ((elem_iff source sources).1 m) refl))
