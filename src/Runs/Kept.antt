-- ===== src/Runs/Kept.antt =====
-- Every call keeps the invariant of the runs.
use knowlega.Base.{
  ℕ, ◌+◌, String, ◌≡◌, ◌⊎◌, refl, inl, inr, Bool, true, false, not, ◌&&◌, ◌||◌, some, [], ◌∷◌,
  arith, subst, if◌then◌else◌, All-append, Bool-cases, Option-cases, ◌==◌, any,
}
use knowlega.Runs.Run.{
  RunStatus, Owner, run_pending, run_running, Run, RunAnswer, RunTable, update_runs,
  session_violated, find_run, run_of_key, new_run, insert_run, enqueue_run, active, begin_run,
  guarded, start_runtime, end_run, complete_runtime, fail_again, fail_for_good, fail_runtime,
}
use knowlega.Runs.Lease.{claimable, oldest_run, lease_row, lease_run, claim_run, claim_by_id}
use knowlega.Runs.Exclusive.{snoc-exclusive}
use knowlega.Runs.Ids.{
  DistinctIds, InRuns, Only-in, All-InRuns, find_run-in, oldest_run-in, update-DistinctIds,
  snoc-DistinctIds,
}
use knowlega.Runs.Inv.{
  RunOk, RunsInv, All-update, update-RunsInv, end_run-IsCalm, fail_again-IsCalm,
  fail_for_good-IsCalm,
}

pub insert_run-RunsInv :
    (t : Run) (rows : RunTable)
    → RunOk t
    → run_running t.status ≡ false
    → RunsInv rows
    → RunsInv (insert_run t rows).0
unfolding insert_run
insert_run-RunsInv t rows good idle v = elim (Option-cases (run_of_key t.idempotency_key rows)) [
  | inr (u, e) ↦ rw (e, insert_run) v
  | inl e ↦
      rw (e, insert_run)
        (elim (Bool-cases (any (λ u. u.id == t.id) rows)) [
          | inl taken ↦ rw taken v
          | inr new ↦ rw new (record {
            runs_ok = All-append RunOk rows (t ∷ []) v.runs_ok (good, tt);
            exclusive = snoc-exclusive t rows idle v.exclusive;
            distinct = snoc-DistinctIds t rows new v.distinct;
          })
        ])
]

pub enqueue_run-RunsInv :
    (valid : String → Bool) (now : ℕ) (uuid id : String) (owner : Owner)
    (session request key : String) (max : ℕ) (rows : RunTable)
    → RunsInv rows
    → RunsInv (enqueue_run valid now uuid id owner session request key max rows).0
unfolding enqueue_run
enqueue_run-RunsInv valid now uuid id owner session request key max rows v =
    elim (Bool-cases (session == "" || not (valid request))) [
      | inl e ↦ rw e v
      | inr e ↦ rw e (
          insert_run-RunsInv
            (new_run now (if id == "" then uuid else id) owner session request key max) rows
            (unfold new_run in ground arith) (unfold new_run in refl) v)
    ]

-- A statement that starts runs is refused where it would violate the index.
guarded-RunsInv :
    (p : Run → Bool) (f : Run → Run) (rows : RunTable) (answer : RunAnswer (Unit {0}))
    → ((t : Run) → (f t).id ≡ t.id)
    → ((t : Run) → InRuns t rows → p t ≡ true → RunOk t → RunOk (f t))
    → RunsInv rows
    → RunsInv (guarded rows (update_runs p f rows) answer).0
unfolding guarded
guarded-RunsInv p f rows answer same fine v =
    elim (Bool-cases (session_violated (update_runs p f rows))) [
      | inl e ↦ rw e v
      | inr e ↦ rw e (record {
        runs_ok = All-update p f rows fine v.runs_ok;
        exclusive = e;
        distinct = update-DistinctIds p f rows same v.distinct;
      })
    ]

pub start_runtime-RunsInv :
    (now : ℕ) (id : String) (rows : RunTable) → RunsInv rows → RunsInv (start_runtime now id rows).0
unfolding start_runtime begin_run
start_runtime-RunsInv now id rows v =
    guarded-RunsInv (active id) (begin_run now) rows _ (λ t. refl)
      (λ t m h good. unfold begin_run in ground arith) v

pub complete_runtime-RunsInv :
    (valid : String → Bool) (now : ℕ) (id result : String) (rows : RunTable)
    → RunsInv rows
    → RunsInv (complete_runtime valid now id result rows).0
unfolding complete_runtime
complete_runtime-RunsInv valid now id result rows v = elim (Bool-cases (valid result)) [
  | inr e ↦ rw e v
  | inl e ↦ rw e (
      update-RunsInv (active id) (end_run now RunStatus.done (some result)) rows
        (end_run-IsCalm now RunStatus.done (some result) refl)
        (λ t m h good. unfold end_run in ground arith) v)
]

pub fail_runtime-RunsInv :
    (now : ℕ) (id result : String) (terminal : Bool) (rows : RunTable)
    → RunsInv rows
    → RunsInv (fail_runtime now id result terminal rows).0
unfolding fail_runtime
fail_runtime-RunsInv now id result true rows v =
    update-RunsInv (active id) (fail_for_good now result) rows (fail_for_good-IsCalm now result)
      (λ t m h good. unfold fail_for_good in ground arith) v
fail_runtime-RunsInv now id result false rows v =
    update-RunsInv (active id) fail_again rows fail_again-IsCalm
      (λ t m h good. unfold fail_again in ground arith) v

-- The row of a run that was found is that run.
pub found_only :
    (t u : Run) (rows : RunTable)
    → DistinctIds rows
    → InRuns t rows
    → InRuns u rows
    → (u.id == t.id) ≡ true
    → u ≡ t
found_only t u rows d m k h =
    elim (All-InRuns (λ w. ((w.id == t.id) ≡ false) ⊎ (w ≡ t)) rows (Only-in t rows d m) u k) [
      | inl e ↦ absurd (ground (arith, h, e))
      | inr e ↦ e
    ]

lease_run-RunsInv :
    (token worker : String) (expires now : ℕ) (t : Run) (rows : RunTable)
    → RunsInv rows
    → InRuns t rows
    → run_pending t.status ≡ true
    → RunsInv (lease_run token worker expires now t rows).0
unfolding lease_run
lease_run-RunsInv token worker expires now t rows v m idle =
    elim (Bool-cases (
      session_violated
        (update_runs (λ u. u.id == t.id) (lease_row token worker expires now) rows))) [
          | inl e ↦ rw (e, lease_run) v
          | inr e ↦
              rw (e, lease_run)
                (record {
                  runs_ok =
                      All-update (λ u. u.id == t.id) (lease_row token worker expires now) rows
                        (λ u k h good. rw (found_only t u rows v.distinct m k h) (
                          leased_to-RunOk token worker expires now t idle
                            (subst RunOk (found_only t u rows v.distinct m k h) good)))
                        v.runs_ok;
                  exclusive = e;
                  distinct =
                      update-DistinctIds (λ u. u.id == t.id) (lease_row token worker expires now)
                        rows (λ u. unfold lease_row in refl) v.distinct;
                })
        ]
  where
    leased_to-RunOk :
        (token worker : String) (expires now : ℕ) (t : Run)
        → run_pending t.status ≡ true
        → RunOk t
        → RunOk (lease_row token worker expires now t)
    leased_to-RunOk token worker expires now t idle good = unfold lease_row in ground arith

pub claim_run-RunsInv :
    (locked : String → Bool) (seen : RunTable) (now : ℕ) (token worker : String) (ttl : ℕ)
    (rows : RunTable)
    → RunsInv rows
    → RunsInv (claim_run locked seen now token worker ttl rows).0
unfolding claim_run
claim_run-RunsInv locked seen now token worker ttl rows v = elim (Bool-cases (worker == "")) [
  | inl e ↦ rw e v
  | inr e ↦ rw e (elim (Option-cases (oldest_run (claimable locked seen) rows)) [
    | inl f ↦ rw f v
    | inr (t, f) ↦
        let (m, q) = oldest_run-in (claimable locked seen) rows t f in
        rw f (
          lease_run-RunsInv token worker (now + ttl) now t rows v m
            (unfold claimable in ground arith))
  ])
]

pub claim_by_id-RunsInv :
    (locked : String → Bool) (seen : RunTable) (now : ℕ) (token id worker : String) (ttl : ℕ)
    (rows : RunTable)
    → RunsInv rows
    → RunsInv (claim_by_id locked seen now token id worker ttl rows).0
unfolding claim_by_id
claim_by_id-RunsInv locked seen now token id worker ttl rows v =
    elim (Bool-cases (id == "" || worker == "")) [
      | inl e ↦ rw e v
      | inr e ↦
          rw e (elim (Option-cases (find_run (λ t. t.id == id && claimable locked seen t) rows)) [
            | inl f ↦ rw f v
            | inr (t, f) ↦
                let (m, q) = find_run-in (λ t. t.id == id && claimable locked seen t) rows t f in
                rw f (
                  lease_run-RunsInv token worker (now + ttl) now t rows v m
                    (unfold claimable in ground arith))
          ])
    ]
