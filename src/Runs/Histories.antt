-- ===== src/Runs/Histories.antt =====
-- The invariant of the runs after any calls, and the calls of a runner and of the reaper that keep it.
use knowlega.Base.{
  ℕ, ◌+◌, String, ◌≡◌, sym, inl, inr, Bool, true, not, ◌&&◌, ◌||◌, some, List, [], ◌∷◌, arith,
  subst, eq_iff, Bool-cases, Option-cases, ◌==◌, any, ltb,
}
use knowlega.Runs.Run.{run_running, Run, RunTable, update_runs, find_run, end_run, fail_for_good}
use knowlega.Runs.Lease.{
  leased_to, extend_run_lease, heartbeat_run, return_run, release_lease, requeue_run, fail_run,
  completable, complete_run, complete_leased, may_requeue, still_expired, park, ReapEvent, reap_one,
  reap_runs, is_lapsed,
}
use knowlega.Runs.Exclusive.{IsCalm}
use knowlega.Runs.Ids.{find_run-in}
use knowlega.Runs.Inv.{
  RunCall, enqueues, starts, completes_runtime, fails_runtime, claims, claims_id, heartbeats,
  releases, fails, completes, reaps, call, all_calls, RunOk, RunsInv, update-RunsInv,
  fail_for_good-IsCalm, extend_run_lease-IsCalm, return_run-IsCalm, requeue_run-IsCalm,
  complete_run-IsCalm, park-IsCalm,
}
use knowlega.Runs.Kept.{
  found_only, enqueue_run-RunsInv, start_runtime-RunsInv, complete_runtime-RunsInv,
  fail_runtime-RunsInv, claim_run-RunsInv, claim_by_id-RunsInv,
}

heartbeat_run-RunsInv :
    (expires : ℕ) (id token : String) (rows : RunTable)
    → RunsInv rows
    → RunsInv (heartbeat_run expires id token rows).0
unfolding heartbeat_run
heartbeat_run-RunsInv expires id token rows v =
    update-RunsInv (leased_to id token) (extend_run_lease expires) rows
      (extend_run_lease-IsCalm expires) (λ t m h good. unfold extend_run_lease in ground arith) v

release_lease-RunsInv :
    (id token : String) (rows : RunTable) → RunsInv rows → RunsInv (release_lease id token rows).0
unfolding release_lease
release_lease-RunsInv id token rows v =
    update-RunsInv (leased_to id token) return_run rows return_run-IsCalm
      (λ t m h good. unfold return_run in ground arith) v

requeue-RunOk : (t : Run) → run_running t.status ≡ true → RunOk t → RunOk (requeue_run t)
requeue-RunOk t busy good = unfold requeue_run in ground arith

fail_for_good-RunOk :
    (now : ℕ) (result : String) (t : Run)
    → run_running t.status ≡ true
    → RunOk t
    → RunOk (fail_for_good now result t)
fail_for_good-RunOk now result t busy good = unfold fail_for_good in ground arith

-- The second statement of a transaction that has read the row: it changes the row by its id alone.
update_found-RunsInv :
    (p : Run → Bool) (f : Run → Run) (id : String) (t : Run) (rows : RunTable)
    → RunsInv rows
    → find_run p rows ≡ some t
    → t.id ≡ id
    → IsCalm f
    → (RunOk t → RunOk (f t))
    → RunsInv (update_runs (λ u. u.id == id) f rows)
update_found-RunsInv p f id t rows v found same calm fine =
    let (m, q) = find_run-in p rows t found in
    update-RunsInv (λ u. u.id == id) f rows calm
      (λ u k h good.
        let only : u ≡ t =
          found_only t u rows v.distinct m k (subst (λ i. (u.id == i) ≡ true) (sym same) h) in
        subst (λ w. RunOk (f w)) (sym only) (fine (subst RunOk only good)))
      v

fail_run-RunsInv :
    (result : String → String → String) (now : ℕ) (id token reason : String) (retry : Bool)
    (rows : RunTable)
    → RunsInv rows
    → RunsInv (fail_run result now id token reason retry rows).0
unfolding fail_run
fail_run-RunsInv result now id token reason retry rows v =
    elim (Option-cases (find_run (leased_to id token) rows)) [
      | inl e ↦ rw (e, fail_run) v
      | inr (t, e) ↦
          let (m, q) = find_run-in (leased_to id token) rows t e in
          let same : t.id ≡ id = ground (arith, q, eq_iff t.id id) in
          let busy : run_running t.status ≡ true = ground (arith, q) in
          rw (e, fail_run)
            (elim (Bool-cases (retry && ltb (t.error_attempts + 1) t.max_attempts)) [
              | inl again ↦ rw again (
                  update_found-RunsInv (leased_to id token) requeue_run id t rows v e same
                    requeue_run-IsCalm (requeue-RunOk t busy))
              | inr last ↦ rw last (
                  update_found-RunsInv (leased_to id token)
                    (fail_for_good now (result t.session_id reason)) id t rows v e same
                    (fail_for_good-IsCalm now (result t.session_id reason))
                    (fail_for_good-RunOk now (result t.session_id reason) t busy))
            ])
    ]

complete_leased-RunsInv :
    (valid : String → Bool) (now : ℕ) (id token key result : String) (rows : RunTable)
    → RunsInv rows
    → RunsInv (complete_leased valid now id token key result rows).0
unfolding complete_leased
complete_leased-RunsInv valid now id token key result rows v =
    elim (Bool-cases (key == "" || not (valid result))) [
      | inl e ↦ rw e v
      | inr e ↦ rw e (elim (Bool-cases (any (completable id token key) rows)) [
        | inl f ↦ rw f (
            update-RunsInv (completable id token key) (complete_run now key result) rows
              (complete_run-IsCalm now key result)
              (λ t m h good. unfold complete_run end_run in ground arith) v)
        | inr f ↦ rw f v
      ])
    ]

reap_one-RunsInv :
    (result : Run → String) (now age count : ℕ) (t : Run) (rows : RunTable)
    (events : List ReapEvent)
    → RunsInv rows
    → RunsInv (reap_one result now age count t (rows, events)).0
unfolding reap_one
reap_one-RunsInv result now age count t rows events v =
    elim (Bool-cases (may_requeue now age count t)) [
      | inl e ↦ rw e (
          update-RunsInv (still_expired now t) return_run rows return_run-IsCalm
            (λ u m h good. unfold return_run in still-return now t u h good) v)
      | inr e ↦ rw e (
          update-RunsInv (still_expired now t) (park now (result t)) rows
            (park-IsCalm now (result t)) (λ u m h good. still-park now t u (result t) h good) v)
    ]
  where
    busy : (now : ℕ) (t u : Run) → still_expired now t u ≡ true → run_running u.status ≡ true
    busy now t u h = ground (arith, h)

    still-return :
        (now : ℕ) (t u : Run) → still_expired now t u ≡ true → RunOk u → RunOk (return_run u)
    still-return now t u h good =
        let running = busy now t u h in unfold return_run in ground (arith, running, good)

    still-park :
        (now : ℕ) (t u : Run) (r : String)
        → still_expired now t u ≡ true
        → RunOk u
        → RunOk (park now r u)
    still-park now t u r h good =
        let running = busy now t u h in unfold park end_run in ground (arith, running, good)

reap_runs-RunsInv :
    (result : Run → String) (now age count : ℕ) (seen : List Run) (rows : RunTable)
    (events : List ReapEvent)
    → RunsInv rows
    → RunsInv (reap_runs result now age count seen (rows, events)).0
unfolding reap_runs
reap_runs-RunsInv result now age count [] rows events v = v
reap_runs-RunsInv result now age count (t ∷ seen) rows events v =
    elim (Bool-cases (run_running t.status && is_lapsed now t.lease_expires_at)) [
      | inl e ↦
          rw (e, reap_runs)
            (reap_runs-RunsInv result now age count seen _ _
              (reap_one-RunsInv result now age count t rows events v))
      | inr e ↦ rw (e, reap_runs) (reap_runs-RunsInv result now age count seen rows events v)
    ]

call-RunsInv : (c : RunCall) (rows : RunTable) → RunsInv rows → RunsInv (call c rows)
unfolding call
call-RunsInv (enqueues valid now uuid id owner session request key max) rows v =
    enqueue_run-RunsInv valid now uuid id owner session request key max rows v
call-RunsInv (starts now id) rows v = start_runtime-RunsInv now id rows v
call-RunsInv (completes_runtime valid now id result) rows v =
    complete_runtime-RunsInv valid now id result rows v
call-RunsInv (fails_runtime now id result terminal) rows v =
    fail_runtime-RunsInv now id result terminal rows v
call-RunsInv (claims locked seen now token worker ttl) rows v =
    claim_run-RunsInv locked seen now token worker ttl rows v
call-RunsInv (claims_id locked seen now token id worker ttl) rows v =
    claim_by_id-RunsInv locked seen now token id worker ttl rows v
call-RunsInv (heartbeats expires id token) rows v = heartbeat_run-RunsInv expires id token rows v
call-RunsInv (releases id token) rows v = release_lease-RunsInv id token rows v
call-RunsInv (fails result now id token reason retry) rows v =
    fail_run-RunsInv result now id token reason retry rows v
call-RunsInv (completes valid now id token key result) rows v =
    complete_leased-RunsInv valid now id token key result rows v
call-RunsInv (reaps result now age count seen) rows v =
    reap_runs-RunsInv result now age count seen rows [] v

-- Any calls on the queue of agent runs, in any order and with any arguments, keep its invariant: no two
-- running runs have the same session, no two runs have the same id, only a running run has a lease, a
-- run has an end exactly if it is done or failed, one that runs has begun, and one that is done has a
-- result.
pub all_calls-RunsInv :
    (calls : List RunCall) (rows : RunTable) → RunsInv rows → RunsInv (all_calls calls rows)
unfolding all_calls
all_calls-RunsInv [] rows v = v
all_calls-RunsInv (c ∷ calls) rows v = all_calls-RunsInv calls (call c rows) (call-RunsInv c rows v)
