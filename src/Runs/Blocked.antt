-- ===== src/Runs/Blocked.antt =====
-- A claim of the oldest run of the queue whose session is busy with a run of the Go runtime.
use knowlega.Base.{
  ℕ, ◌+◌, String, ◌≡◌, ◌≢◌, refl, sym, ◌∙◌, subst, inl, inr, Bool, true, false, some, [], ◌∷◌, map,
  arith, if◌then◌else◌, Bool-cases, ◌==◌, any, eq_refl, eq_iff,
}
use knowlega.Runs.Run.{
  run_pending, run_running, Run, err, session_busy, RunTable, update_runs, clash_running,
  session_violated,
}
use knowlega.Runs.Lease.{claimable, oldest_run, lease_row, lease_run, claim_run}
use knowlega.Runs.Ids.{DistinctIds, InRuns, oldest_run-in}
use knowlega.Runs.Kept.{found_only}

any-clash_running-in :
    (h : Run → Run) (x g : Run) (rows : RunTable)
    → InRuns g rows
    → clash_running x (h g) ≡ true
    → any (clash_running x) (map h rows) ≡ true
any-clash_running-in h x g [] m c = absurd m
any-clash_running-in h x g (u ∷ rows) (inl e) c =
    let here : clash_running x (h u) ≡ true = subst (λ y. clash_running x (h y) ≡ true) e c in
    rw here refl
any-clash_running-in h x g (u ∷ rows) (inr m) c = elim (Bool-cases (clash_running x (h u))) [
  | inl e ↦ rw e refl
  | inr e ↦ rw e (any-clash_running-in h x g rows m c)
]

-- Two rows that clash after an update violate the index.
session_violated-in :
    (h : Run → Run) (t g : Run) (rows : RunTable)
    → InRuns t rows
    → InRuns g rows
    → t ≢ g
    → clash_running (h t) (h g) ≡ true
    → clash_running (h g) (h t) ≡ true
    → session_violated (map h rows) ≡ true
unfolding session_violated
session_violated-in h t g [] m n apart c d = absurd m
session_violated-in h t g (u ∷ rows) (inl e) (inl f) apart c d = absurd (apart (e ∙ sym f))
session_violated-in h t g (u ∷ rows) (inl e) (inr n) apart c d =
    rw (any-clash_running-in h (h u) g rows n (subst (λ y. clash_running (h y) (h g) ≡ true) e c))
      refl
session_violated-in h t g (u ∷ rows) (inr m) (inl f) apart c d =
    rw (any-clash_running-in h (h u) t rows m (subst (λ y. clash_running (h y) (h t) ≡ true) f d))
      refl
session_violated-in h t g (u ∷ rows) (inr m) (inr n) apart c d =
    elim (Bool-cases (any (clash_running (h u)) (map h rows))) [
      | inl e ↦ rw e refl
      | inr e ↦ rw (e, session_violated-in h t g rows m n apart c d) refl
    ]

lease-violated :
    (token worker : String) (expires now : ℕ) (t g : Run) (rows : RunTable)
    → DistinctIds rows
    → InRuns t rows
    → InRuns g rows
    → run_pending t.status ≡ true
    → run_running g.status ≡ true
    → g.session_id ≡ t.session_id
    → session_violated (update_runs (λ u. u.id == t.id) (lease_row token worker expires now) rows)
      ≡ true
unfolding update_runs
lease-violated token worker expires now t g rows d m n waits runs same =
    session_violated-in (λ u. if u.id == t.id then lease_row token worker expires now u else u) t g
      rows m n apart
      (rw (eq_refl t.id, other)
        (unfold lease_row in ground (arith, runs, same, eq_refl t.session_id)))
      (rw (eq_refl t.id, other)
        (unfold lease_row in ground (arith, runs, same, eq_refl t.session_id)))
  where
    apart : t ≢ g
    apart e = ground (arith, waits, subst (λ x. run_running x.status ≡ true) (sym e) runs)

    other : (g.id == t.id) ≡ false
    other = elim (Bool-cases (g.id == t.id)) [
      | inl e ↦ absurd (apart (sym (found_only t g rows d m n e)))
      | inr e ↦ e
    ]

-- In a table of distinct ids, whenever the oldest run that Claim may take belongs to a session in which
-- a run is running, Claim of a named runner answers with the error of the index and changes nothing, so
-- that no younger run of another session is claimed either.
pub claim_blocked :
    (locked : String → Bool) (now : ℕ) (token worker : String) (ttl : ℕ) (t g : Run)
    (rows : RunTable)
    → DistinctIds rows
    → oldest_run (claimable locked rows) rows ≡ some t
    → InRuns g rows
    → run_running g.status ≡ true
    → g.session_id ≡ t.session_id
    → worker ≢ ""
    → claim_run locked rows now token worker ttl rows ≡ (rows, err session_busy)
unfolding claim_run
claim_blocked locked now token worker ttl t g rows d first n runs same named =
    let (m, q) = oldest_run-in (claimable locked rows) rows t first in
    let unnamed : (worker == "") ≡ false = ground (arith, named, eq_iff worker "") in
    let busy =
      lease-violated token worker (now + ttl) now t g rows d m n
        (unfold claimable in ground (arith, q)) runs same in
    rw (unnamed, first) (unfold lease_run in rw busy refl)
