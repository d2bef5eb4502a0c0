-- ===== src/Runtime/Simulation.antt =====
-- Every call of the repository changes the tasks as the abstract queue allows.
use knowlega.Base.{
  ℕ, ◌+◌, ◌<◌, String, ◌≡◌, refl, inl, inr, Bool, true, false, none, some, List, [], ◌∷◌, ◌++◌,
  ◌&&◌, arith, ◌==◌, eq_iff, ◌=ℕ◌, any, ltb, Bool-cases, Option-cases,
}
use knowlega.Base.Text.{trim_space}
use knowlega.Runtime.Task.{RuntimeTask, EnqueueInput, is_pending}
use knowlega.Runtime.Store.{
  Table, update_where, find_row, enqueue, insert_row, new_row, existing, unix_milli, kind_matches,
}
use knowlega.Runtime.Claim.{
  claim, claim_checked, claim_row, lease_to, is_candidate, first_candidate, serial_violated,
}
use knowlega.Runtime.Finish.{
  leased, requeue_failed, heartbeat, complete, release, acknowledge_cancellation, fail, cancel,
  reap_expired,
}
use knowlega.Runtime.Rows.{InRows, same_of_id, find_row-in}
use knowlega.Runtime.Steps.{
  Call, enqueues, claims, heartbeats, completes, releases, acknowledges, fails, cancels, reaps,
  step, Inv,
}
use knowlega.Runtime.Invariant.{first_candidate-in, step-Inv}
use knowlega.Runtime.Lifecycle.{
  waiting, adding, claiming, keeping, completing, releasing, acknowledging, failing, cancelling,
  reaping, life, Moves, Evolves, act_of, id_of, Simulated, Evolves-refl,
}
use knowlega.Runtime.Refinement.{
  update-Evolves, reap-Evolves, extend-Moves, succeed-Moves, give_back-Moves, end_cancelled-Moves,
  lease_to-Moves, cancel_row-Moves, requeue_failed-Moves, end_failed-Moves, reap_requeue-Moves,
  reap_end-Moves,
}

-- A row that is new to the table.
New : RuntimeTask → Type 0
New t = (m : ℕ) × (0 < m) × (life t ≡ waiting 0 m false)

new_row-New : (now : ℕ) (id kind : String) (input : EnqueueInput) → New (new_row now id kind input)
unfolding new_row New
new_row-New now id kind input =
    ((new_row now id kind input).max_attempts, unfold new_row in ground arith, refl)

append-Evolves :
    (rows : Table) (t : RuntimeTask) → New t → Evolves adding none rows (rows ++ t ∷ [])
unfolding New
append-Evolves [] t new = new
append-Evolves (u ∷ rows) t new = (inl refl, append-Evolves rows t new)

insert-Evolves :
    (t : RuntimeTask) (rows : Table) → New t → Evolves adding none rows (insert_row t rows).0
unfolding insert_row
insert-Evolves t rows new = elim (Option-cases (existing t rows)) [
  | inr (u, e) ↦ rw (e, insert_row) (Evolves-refl adding none rows)
  | inl e ↦
      rw (e, insert_row)
        (elim (Bool-cases (any (λ u. u.id == t.id) rows)) [
          | inl clash ↦ rw clash (Evolves-refl adding none rows)
          | inr fresh ↦ rw fresh (append-Evolves rows t new)
        ])
]

enqueue-Evolves :
    (valid : String → Bool) (now : ℕ) (uuid : String) (input : EnqueueInput) (rows : Table)
    → Evolves adding none rows (enqueue valid now uuid input rows).0
unfolding enqueue
enqueue-Evolves valid now uuid input rows =
    elim (Bool-cases (kind_matches (trim_space input.kind))) [
      | inr e ↦ rw e (Evolves-refl adding none rows)
      | inl e ↦ rw e (elim (Bool-cases (valid input.payload)) [
        | inr f ↦ rw f (Evolves-refl adding none rows)
        | inl f ↦ rw f (insert-Evolves _ rows (new_row-New now _ (trim_space input.kind) input))
      ])
    ]

claim_row-Evolves :
    (token owner : String) (e n : ℕ) (t : RuntimeTask) (rows : Table)
    → Inv rows
    → InRows t rows
    → is_pending t.status ≡ true
    → Evolves claiming none rows (claim_row token owner e n t rows).0
unfolding claim_row
claim_row-Evolves token owner e n t rows v m idle =
    elim (Bool-cases
      (serial_violated (update_where (λ u. u.id == t.id) (lease_to token owner e n) rows))) [
        | inl clash ↦ rw clash (Evolves-refl claiming none rows)
        | inr free ↦ rw free (
            update-Evolves claiming none _ _ rows λ u k h.
              rw (same_of_id rows u t v.distinct k m ((eq_iff u.id t.id).0 h))
                (lease_to-Moves token owner e n t idle))
      ]

claim_checked-Evolves :
    (locked : String → Bool) (seen : Table) (now : ℕ) (token owner : String) (kinds : List String)
    (ttl : ℕ) (rows : Table)
    → Inv rows
    → Evolves claiming none rows (claim_checked locked seen now token owner kinds ttl rows).0
unfolding claim_checked
claim_checked-Evolves locked seen now token owner kinds ttl rows v =
    elim (Option-cases (first_candidate (is_candidate locked seen (unix_milli now) kinds) rows)) [
      | inl e ↦ rw (e, claim_checked) (Evolves-refl claiming none rows)
      | inr (t, e) ↦
          let (m, q) = first_candidate-in _ rows t e in
          rw (e, claim_checked) (claim_row-Evolves token owner _ _ t rows v m (ground arith))
    ]

claim-Evolves :
    (locked : String → Bool) (seen : Table) (now : ℕ) (token owner : String) (kinds : List String)
    (ttl : ℕ) (rows : Table)
    → Inv rows
    → Evolves claiming none rows (claim locked seen now token owner kinds ttl rows).0
unfolding claim
claim-Evolves locked seen now token owner kinds ttl rows v =
    let stay : Evolves claiming none rows rows = (Evolves-refl claiming none rows) in
    ground
      (arith, stay, claim_checked-Evolves locked seen now token (trim_space owner) kinds ttl rows v)

heartbeat-Evolves :
    (now later : ℕ) (id token : String) (ttl : ℕ) (rows : Table)
    → Evolves keeping (some id) rows (heartbeat now later id token ttl rows).0
unfolding heartbeat
heartbeat-Evolves now at id token ttl rows = elim (Bool-cases (ttl =ℕ 0)) [
  | inl z ↦ rw z (Evolves-refl keeping (some id) rows)
  | inr nz ↦ rw nz (elim (Option-cases (find_row (leased id token) rows)) [
    | inl e ↦ rw e (Evolves-refl keeping (some id) rows)
    | inr (t, e) ↦ rw e (
        update-Evolves keeping (some id) _ _ rows
          (λ u m h. extend-Moves (unix_milli (now + ttl)) (unix_milli at) (some id) u))
  ])
]

complete-Evolves :
    (valid : String → Bool) (now : ℕ) (id token result : String) (rows : Table)
    → Evolves completing (some id) rows (complete valid now id token result rows).0
unfolding complete
complete-Evolves valid now id token result rows = elim (Bool-cases (valid result)) [
  | inl e ↦ rw e (
      update-Evolves completing (some id) _ _ rows
        (λ t m h. succeed-Moves (unix_milli now) result id token t h))
  | inr e ↦ rw e (Evolves-refl completing (some id) rows)
]

fail-Evolves :
    (now later : ℕ) (id token reason : String) (retry : Bool) (delay : ℕ) (rows : Table)
    → Inv rows
    → Evolves (failing retry) (some id) rows (fail now later id token reason retry delay rows).0
unfolding fail
fail-Evolves now at id token reason retry delay rows v =
    elim (Option-cases (find_row (leased id token) rows)) [
      | inl e ↦ rw (e, fail) (Evolves-refl (failing retry) (some id) rows)
      | inr (t, e) ↦
          let (k, q) = find_row-in (leased id token) rows t e in
          rw (e, fail)
            (elim (Bool-cases (retry && ltb t.attempts t.max_attempts)) [
              | inl again ↦ rw again (
                  update-Evolves (failing retry) (some id) _ _ rows λ u m h.
                    rw (only t k q e u m h)
                      (retried t q (ground (arith, again)) (ground (arith, again))))
              | inr spent ↦ rw spent (
                  update-Evolves (failing retry) (some id) _ _ rows λ u m h.
                    rw (only t k q e u m h) (
                      end_failed-Moves (unix_milli now) id reason retry t (ground (arith, q))
                        ((eq_iff t.id id).0 (ground (arith, q))) spent))
            ])
    ]
  where
    retried :
        (t : RuntimeTask)
        → leased id token t ≡ true
        → retry ≡ true
        → t.attempts < t.max_attempts
        → Moves
            (failing retry)
            (some id)
            t
            (requeue_failed (unix_milli now) (unix_milli (at + delay)) reason t)
    retried t q again left = rw again (
        requeue_failed-Moves (unix_milli now) (unix_milli (at + delay)) id reason t
          (ground (arith, q)) ((eq_iff t.id id).0 (ground (arith, q))) left)

    only :
        (t : RuntimeTask)
        → InRows t rows
        → leased id token t ≡ true
        → find_row (leased id token) rows ≡ some t
        → (u : RuntimeTask) → InRows u rows
        → (u.id == id) ≡ true
        → u ≡ t
    only t k q e u m h =
        same_of_id rows u t v.distinct m k (ground (arith, q, eq_iff u.id id, eq_iff t.id id))

step-Evolves :
    (c : Call) (rows : Table) → Inv rows → Evolves (act_of c) (id_of c) rows (step c rows)
unfolding step
step-Evolves (enqueues valid now uuid input) rows v = enqueue-Evolves valid now uuid input rows
step-Evolves (claims locked seen now token owner kinds ttl) rows v =
    claim-Evolves locked seen now token owner kinds ttl rows v
step-Evolves (heartbeats now at id token ttl) rows v = heartbeat-Evolves now at id token ttl rows
step-Evolves (completes valid now id token result) rows v =
    complete-Evolves valid now id token result rows
step-Evolves (releases now id token) rows v =
    unfold release in
    update-Evolves releasing (some id) _ _ rows
      (λ t m h. give_back-Moves (unix_milli now) id token t h)
step-Evolves (acknowledges now id token) rows v =
    unfold acknowledge_cancellation in
    update-Evolves acknowledging (some id) _ _ rows
      (λ t m h. end_cancelled-Moves (unix_milli now) id token t h)
step-Evolves (fails now at id token reason retry delay) rows v =
    fail-Evolves now at id token reason retry delay rows v
step-Evolves (cancels now id) rows v =
    unfold cancel in
    update-Evolves cancelling (some id) _ _ rows (λ t m h. cancel_row-Moves (unix_milli now) id t h)
step-Evolves (reaps now) rows v =
    unfold reap_expired in
    reap-Evolves rows _ _
      (update-Evolves reaping none _ _ rows (λ t m h. reap_requeue-Moves (unix_milli now) t h))
      (update-Evolves reaping none _ _ _ (λ t m h. reap_end-Moves (unix_milli now) t h))

-- From a table that satisfies the invariant, each call of any history changes the tasks as the abstract
-- queue allows for its kind: a claim takes and counts, a completion succeeds, a release gives back and
-- an acknowledgement cancels what is held; a failure that may be retried puts back while attempts are
-- left and is the end when none is, one that may not is the end; a cancellation withdraws what waits
-- and marks what is held; the reaper puts back, ends or drops what is held; only the task of the
-- call's id moves, one that is over never does, and only an enqueue adds a task, which waits.
pub run-Simulated : (calls : List Call) (rows : Table) → Inv rows → Simulated calls rows
run-Simulated [] rows v = tt
run-Simulated (c ∷ calls) rows v =
    (step-Evolves c rows v, run-Simulated calls (step c rows) (step-Inv c rows v))
