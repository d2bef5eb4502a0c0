-- ===== src/Runtime/FinishInv.antt =====
-- The calls that end or give back a task keep the invariant.
use knowlega.Base.{
  ℕ, String, ◌≡◌, refl, inl, inr, Bool, true, some, ◌&&◌, ltb, arith, ◌==◌, eq_iff, ◌=ℕ◌,
  Bool-cases, Option-cases,
}
use knowlega.Runtime.Task.{RuntimeTask}
use knowlega.Runtime.Store.{Table, find_row}
use knowlega.Runtime.Finish.{
  leased, heartbeat, extend_lease, complete, succeed, releasable, release, give_back, cancellable,
  acknowledge_cancellation, end_cancelled, fail, unfinished, cancel_row, cancel, reap_requeues,
  reap_ends, reap_requeue, reap_end, reap_expired, requeue_failed, end_failed,
}
use knowlega.Runtime.Rows.{InRows, DistinctIds, find_row-in}
use knowlega.Runtime.Steps.{Inv, update-Inv, only_row}

pub heartbeat-Inv :
    (now later : ℕ) (id token : String) (ttl : ℕ) (rows : Table)
    → Inv rows
    → Inv (heartbeat now later id token ttl rows).0
unfolding heartbeat
heartbeat-Inv now later id token ttl rows v = elim (Bool-cases (ttl =ℕ 0)) [
  | inl z ↦ rw z v
  | inr nz ↦ rw nz (elim (Option-cases (find_row (leased id token) rows)) [
    | inl e ↦ rw e v
    | inr (t, e) ↦ rw e (
        update-Inv (leased id token) (extend_lease _ _) rows (λ t. refl) (λ t. refl) (λ t h. h)
          (λ t m h ok. ground arith) v)
  ])
]

pub complete-Inv :
    (valid : String → Bool) (now : ℕ) (id token result : String) (rows : Table)
    → Inv rows
    → Inv (complete valid now id token result rows).0
unfolding complete
complete-Inv valid now id token result rows v = elim (Bool-cases (valid result)) [
  | inl e ↦ rw e (
      update-Inv (leased id token) (succeed _ _) rows (λ t. refl) (λ t. refl) (λ t h. cc)
        (λ t m h ok. ground arith) v)
  | inr e ↦ rw e v
]

pub release-Inv :
    (now : ℕ) (id token : String) (rows : Table) → Inv rows → Inv (release now id token rows).0
unfolding release
release-Inv now id token rows v =
    update-Inv (releasable id token) (give_back _) rows (λ t. refl) (λ t. refl) (λ t h. cc)
      (λ t m h ok. ground arith) v

pub acknowledge-Inv :
    (now : ℕ) (id token : String) (rows : Table)
    → Inv rows
    → Inv (acknowledge_cancellation now id token rows).0
unfolding acknowledge_cancellation
acknowledge-Inv now id token rows v =
    update-Inv (cancellable id token) (end_cancelled _) rows (λ t. refl) (λ t. refl) (λ t h. cc)
      (λ t m h ok. ground arith) v

-- The row that the SELECT of Fail finds is the only one that its UPDATE names.
pub leased_only :
    (id token : String) (rows : Table) (t u : RuntimeTask)
    → DistinctIds rows
    → find_row (leased id token) rows ≡ some t
    → InRows u rows
    → (u.id == id) ≡ true
    → leased id token u ≡ true
leased_only id token rows t u d e m h =
    let (n, q) = find_row-in (leased id token) rows t e in
    only_row rows (leased id token) t u d n q m (ground (arith, eq_iff u.id id, eq_iff t.id id))

pub fail-Inv :
    (now later : ℕ) (id token reason : String) (retry : Bool) (delay : ℕ) (rows : Table)
    → Inv rows
    → Inv (fail now later id token reason retry delay rows).0
unfolding fail
fail-Inv now later id token reason retry delay rows v =
    elim (Option-cases (find_row (leased id token) rows)) [
      | inl e ↦ rw (e, fail) v
      | inr (t, e) ↦
          rw (e, fail)
            (elim (Bool-cases (retry && ltb t.attempts t.max_attempts)) [
              | inl again ↦ rw again (
                  update-Inv (λ u. u.id == id) (requeue_failed _ _ _) rows (λ u. refl) (λ u. refl)
                    (λ u h. cc)
                    (λ u m h ok. ground (arith, leased_only id token rows t u v.distinct e m)) v)
              | inr over ↦ rw over (
                  update-Inv (λ u. u.id == id) (end_failed _ _ _) rows (λ u. refl) (λ u. refl)
                    (λ u h. ground arith) (λ u m h ok. ground arith) v)
            ])
    ]

pub cancel-Inv : (now : ℕ) (id : String) (rows : Table) → Inv rows → Inv (cancel now id rows).0
unfolding cancel
cancel-Inv now id rows v =
    update-Inv (unfinished id) (cancel_row _) rows (λ t. refl) (λ t. refl) (λ t h. ground arith)
      (λ t m h ok. ground arith) v

pub reap-Inv : (now : ℕ) (rows : Table) → Inv rows → Inv (reap_expired now rows).0
unfolding reap_expired
reap-Inv now rows v =
    update-Inv (reap_ends _) (reap_end _) _ (λ t. refl) (λ t. refl) (λ t h. ground arith)
      (λ t m h ok. ground arith)
      (update-Inv (reap_requeues _) (reap_requeue _) rows (λ t. refl) (λ t. refl) (λ t h. cc)
        (λ t m h ok. ground arith) v)
