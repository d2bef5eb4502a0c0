-- ===== src/Runs/Inv.antt =====
-- Every history of calls on the runs, and what holds of the table after each call.
use knowlega.Base.{
  ℕ, String, ◌≡◌, ◌⊎◌, refl, inl, inr, Bool, true, false, not, Option, List, [], ◌∷◌, arith,
  is_some, All, Bool-cases,
}
use knowlega.Runs.Run.{
  RunStatus, Owner, run_running, run_done, is_active, Run, RunTable, update_runs, session_violated,
  enqueue_run, start_runtime, end_run, complete_runtime, fail_again, fail_for_good, fail_runtime,
}
use knowlega.Runs.Lease.{
  claim_run, claim_by_id, extend_run_lease, heartbeat_run, return_run, release_lease, requeue_run,
  fail_run, complete_run, complete_leased, park, reap_runs,
}
use knowlega.Runs.Exclusive.{IsCalm, update-exclusive}
use knowlega.Runs.Ids.{DistinctIds, InRuns, update-DistinctIds}

pub data RunCall : Type 0 where
  enqueues : (String → Bool) → ℕ → String → String → Owner → String → String → String → ℕ → RunCall
  starts : ℕ → String → RunCall
  completes_runtime : (String → Bool) → ℕ → String → String → RunCall
  fails_runtime : ℕ → String → String → Bool → RunCall
  claims : (String → Bool) → RunTable → ℕ → String → String → ℕ → RunCall
  claims_id : (String → Bool) → RunTable → ℕ → String → String → String → ℕ → RunCall
  heartbeats : ℕ → String → String → RunCall
  releases : String → String → RunCall
  fails : (String → String → String) → ℕ → String → String → String → Bool → RunCall
  completes : (String → Bool) → ℕ → String → String → String → String → RunCall
  reaps : (Run → String) → ℕ → ℕ → ℕ → List Run → RunCall

unfoldable pub call : RunCall → RunTable → RunTable
call (enqueues valid now uuid id owner session request key max) rows =
    (enqueue_run valid now uuid id owner session request key max rows).0
call (starts now id) rows = (start_runtime now id rows).0
call (completes_runtime valid now id result) rows = (complete_runtime valid now id result rows).0
call (fails_runtime now id result terminal) rows = (fail_runtime now id result terminal rows).0
call (claims locked seen now token worker ttl) rows =
    (claim_run locked seen now token worker ttl rows).0
call (claims_id locked seen now token id worker ttl) rows =
    (claim_by_id locked seen now token id worker ttl rows).0
call (heartbeats expires id token) rows = (heartbeat_run expires id token rows).0
call (releases id token) rows = (release_lease id token rows).0
call (fails result now id token reason retry) rows =
    (fail_run result now id token reason retry rows).0
call (completes valid now id token key result) rows =
    (complete_leased valid now id token key result rows).0
call (reaps result now age count seen) rows = (reap_runs result now age count seen (rows, [])).0

unfoldable pub all_calls : List RunCall → RunTable → RunTable
all_calls [] rows = rows
all_calls (c ∷ calls) rows = all_calls calls (call c rows)

-- Only a run that runs has a lease, exactly one that is over has an end, one that runs has begun, and
-- one that is done has a result.
pub record RunOk (t : Run) : Type 0 where
  pub leased_running : (is_some t.lease_token ≡ false) ⊎ (run_running t.status ≡ true)
  pub finished_iff : is_some t.finished_at ≡ not (is_active t.status)
  pub started : (run_running t.status ≡ false) ⊎ (is_some t.started_at ≡ true)
  pub answered : (run_done t.status ≡ false) ⊎ (is_some t.result ≡ true)

pub record RunsInv (rows : RunTable) : Type 0 where
  pub runs_ok : All RunOk rows
  pub exclusive : session_violated rows ≡ false
  pub distinct : DistinctIds rows

pub All-update :
    (p : Run → Bool) (f : Run → Run) (rows : RunTable)
    → ((t : Run) → InRuns t rows → p t ≡ true → RunOk t → RunOk (f t))
    → All RunOk rows
    → All RunOk (update_runs p f rows)
unfolding update_runs
All-update p f [] fine h = tt
All-update p f (t ∷ rows) fine h = elim (Bool-cases (p t)) [
  | inl e ↦ rw e (fine t (inl refl) e h.0, All-update p f rows (λ u m. fine u (inr m)) h.1)
  | inr e ↦ rw e (h.0, All-update p f rows (λ u m. fine u (inr m)) h.1)
]

pub update-RunsInv :
    (p : Run → Bool) (f : Run → Run) (rows : RunTable)
    → IsCalm f
    → ((t : Run) → InRuns t rows → p t ≡ true → RunOk t → RunOk (f t))
    → RunsInv rows
    → RunsInv (update_runs p f rows)
update-RunsInv p f rows calm fine v = record {
  runs_ok = All-update p f rows fine v.runs_ok;
  exclusive = update-exclusive p f rows calm v.exclusive;
  distinct = update-DistinctIds p f rows calm.named v.distinct;
}

-- The changes that start no run.
pub end_run-IsCalm :
    (now : ℕ) (s : RunStatus) (r : Option String) → run_running s ≡ false → IsCalm (end_run now s r)
unfolding end_run
end_run-IsCalm now s r idle = record {
  stops = λ t h. absurd (ground (arith, h, idle));
  session = λ t. refl;
  named = λ t. refl;
}

pub fail_again-IsCalm : IsCalm fail_again
unfolding fail_again
fail_again-IsCalm = record { stops = λ t h. cc; session = λ t. refl; named = λ t. refl }

pub fail_for_good-IsCalm : (now : ℕ) (r : String) → IsCalm (fail_for_good now r)
unfolding fail_for_good
fail_for_good-IsCalm now r = record { stops = λ t h. cc; session = λ t. refl; named = λ t. refl }

pub extend_run_lease-IsCalm : (e : ℕ) → IsCalm (extend_run_lease e)
unfolding extend_run_lease
extend_run_lease-IsCalm e = record { stops = λ t h. h; session = λ t. refl; named = λ t. refl }

pub return_run-IsCalm : IsCalm return_run
unfolding return_run
return_run-IsCalm = record { stops = λ t h. cc; session = λ t. refl; named = λ t. refl }

pub requeue_run-IsCalm : IsCalm requeue_run
unfolding requeue_run
requeue_run-IsCalm = record { stops = λ t h. cc; session = λ t. refl; named = λ t. refl }

pub complete_run-IsCalm : (now : ℕ) (k r : String) → IsCalm (complete_run now k r)
unfolding complete_run end_run
complete_run-IsCalm now k r = record { stops = λ t h. cc; session = λ t. refl; named = λ t. refl }

pub park-IsCalm : (now : ℕ) (r : String) → IsCalm (park now r)
unfolding park end_run
park-IsCalm now r = record { stops = λ t h. cc; session = λ t. refl; named = λ t. refl }
