-- ===== src/Runtime/Ended.antt =====
-- A task that has ended is never changed again.
use knowlega.Base.{
  ℕ, ◌+◌, String, ◌≡◌, ◌⊎◌, refl, ◌∙◌, inl, inr, Bool, true, false, Option, some, List, [], ◌∷◌,
  ◌++◌, ◌&&◌, arith, ◌==◌, eq_iff, ◌=ℕ◌, any, ltb, Bool-cases, Option-cases,
}
use knowlega.Base.Int.{ℤ}
use knowlega.Base.Text.{trim_space}
use knowlega.Runtime.Task.{RuntimeTask, EnqueueInput, is_pending, is_terminal}
use knowlega.Runtime.Store.{
  Table, update_where, find_row, enqueue, insert_row, existing, unix_milli, kind_matches,
}
use knowlega.Runtime.Claim.{
  claim, claim_checked, claim_row, lease_to, is_candidate, first_candidate, serial_violated,
}
use knowlega.Runtime.Finish.{
  leased, heartbeat, complete, releasable, release, cancellable, acknowledge_cancellation, fail,
  unfinished, cancel, reap_requeues, reap_ends, reap_expired, reap_requeue, extend_lease, succeed,
  give_back, end_cancelled, requeue_failed, end_failed, cancel_row, reap_end,
}
use knowlega.Runtime.Rows.{InRows, same_of_id}
use knowlega.Runtime.Steps.{
  Call, enqueues, claims, heartbeats, completes, releases, acknowledges, fails, cancels, reaps,
  step, Inv,
}
use knowlega.Runtime.FinishInv.{leased_only}
use knowlega.Runtime.Invariant.{first_candidate-in}

-- What the task was queued with.
pub record Request : Type 0 where
  pub id : String
  pub kind : String
  pub payload_version : ℕ
  pub payload : String
  pub scope_id : Option String
  pub actor_id : Option String
  pub idempotency_key : Option String
  pub serial_key : Option String
  pub priority : ℤ
  pub max_attempts : ℕ
  pub created_at : ℕ

abbrev pub request : RuntimeTask → Request
request t = record {
  id = t.id;
  kind = t.kind;
  payload_version = t.payload_version;
  payload = t.payload;
  scope_id = t.scope_id;
  actor_id = t.actor_id;
  idempotency_key = t.idempotency_key;
  serial_key = t.serial_key;
  priority = t.priority;
  max_attempts = t.max_attempts;
  created_at = t.created_at;
}

-- The same task, in the same row if it has ended.
abbrev pub KeptRow : RuntimeTask → RuntimeTask → Type 0
KeptRow t u = (request u ≡ request t) × ((is_terminal t.status ≡ false) ⊎ (u ≡ t))

-- Each row of the first table stands at its place in the second, unchanged if it has ended.
abbrev pub Frozen : Table → Table → Type 0
Frozen [] rows' = Unit
Frozen (t ∷ rows) [] = ⊥
Frozen (t ∷ rows) (u ∷ rows') = KeptRow t u × Frozen rows rows'

Frozen-refl : (rows : Table) → Frozen rows rows
Frozen-refl [] = tt
Frozen-refl (t ∷ rows) = ((refl, inr refl), Frozen-refl rows)

kept_trans :
    (t u w : RuntimeTask)
    → (is_terminal t.status ≡ false) ⊎ (u ≡ t)
    → (is_terminal u.status ≡ false) ⊎ (w ≡ u)
    → (is_terminal t.status ≡ false) ⊎ (w ≡ t)
kept_trans t u w (inl e) k = inl e
kept_trans t u w (inr e) (inl f) = inl (rw e at f)
kept_trans t u w (inr e) (inr f) = inr (f ∙ e)

Frozen-trans : (a b c : Table) → Frozen a b → Frozen b c → Frozen a c
Frozen-trans [] b c h k = tt
Frozen-trans (t ∷ a) [] c h k = absurd h
Frozen-trans (t ∷ a) (u ∷ b) [] h k = absurd k
Frozen-trans (t ∷ a) (u ∷ b) (w ∷ c) h k =
    ((k.0.0 ∙ h.0.0, kept_trans t u w h.0.1 k.0.1), Frozen-trans a b c h.1 k.1)

Frozen-append : (rows : Table) (t : RuntimeTask) → Frozen rows (rows ++ t ∷ [])
Frozen-append [] t = tt
Frozen-append (u ∷ rows) t = ((refl, inr refl), Frozen-append rows t)

-- An UPDATE that names no row that has ended.
update-Frozen :
    (p : RuntimeTask → Bool) (f : RuntimeTask → RuntimeTask) (rows : Table)
    → ((t : RuntimeTask) → request (f t) ≡ request t)
    → ((t : RuntimeTask) → InRows t rows → p t ≡ true → is_terminal t.status ≡ false)
    → Frozen rows (update_where p f rows)
unfolding update_where
update-Frozen p f [] same h = tt
update-Frozen p f (t ∷ rows) same h = (
  elim (Bool-cases (p t)) [
    | inl q ↦ rw q (same t, inl (h t (inl refl) q))
    | inr q ↦ rw q (refl, inr refl)
  ],
  update-Frozen p f rows same (λ u m. h u (inr m)),
)

insert-Frozen : (t : RuntimeTask) (rows : Table) → Frozen rows (insert_row t rows).0
unfolding insert_row
insert-Frozen t rows = elim (Option-cases (existing t rows)) [
  | inr (u, e) ↦ rw (e, insert_row) (Frozen-refl rows)
  | inl e ↦
      rw (e, insert_row)
        (elim (Bool-cases (any (λ u. u.id == t.id) rows)) [
          | inl taken ↦ rw taken (Frozen-refl rows)
          | inr new ↦ rw new (Frozen-append rows t)
        ])
]

claim_checked-Frozen :
    (locked : String → Bool) (seen : Table) (now : ℕ) (token owner : String) (kinds : List String)
    (ttl : ℕ) (rows : Table)
    → Inv rows
    → Frozen rows (claim_checked locked seen now token owner kinds ttl rows).0
unfolding claim_checked
claim_checked-Frozen locked seen now token owner kinds ttl rows v =
    elim (Option-cases (first_candidate (is_candidate locked seen (unix_milli now) kinds) rows)) [
      | inl e ↦ rw (e, claim_checked) (Frozen-refl rows)
      | inr (t, e) ↦
          let (m, q) = first_candidate-in _ rows t e in
          rw (e, claim_checked) (claimed t m (ground arith))
    ]
  where
    claimed :
        (t : RuntimeTask)
        → InRows t rows
        → is_pending t.status ≡ true
        → Frozen rows
            (claim_row token owner (unix_milli now + unix_milli ttl) (unix_milli now) t rows).0
    claimed t m idle =
        unfold claim_row in
        elim (Bool-cases (
          serial_violated (
            update_where (λ u. u.id == t.id)
              (lease_to token owner (unix_milli now + unix_milli ttl) (unix_milli now)) rows))) [
                | inl e ↦ rw e (Frozen-refl rows)
                | inr e ↦ rw e (
                    update-Frozen _ _ rows (λ x. unfold lease_to in refl)
                      λ u n h.
                        rw (same_of_id rows u t v.distinct n m ((eq_iff u.id t.id).0 h))
                          (ground arith))
              ]

claim-Frozen :
    (locked : String → Bool) (seen : Table) (now : ℕ) (token owner : String) (kinds : List String)
    (ttl : ℕ) (rows : Table)
    → Inv rows
    → Frozen rows (claim locked seen now token owner kinds ttl rows).0
unfolding claim
claim-Frozen locked seen now token owner kinds ttl rows v = ground (
  arith,
  Frozen-refl rows,
  claim_checked-Frozen locked seen now token (trim_space owner) kinds ttl rows v,
)

enqueue-Frozen :
    (valid : String → Bool) (now : ℕ) (uuid : String) (input : EnqueueInput) (rows : Table)
    → Frozen rows (enqueue valid now uuid input rows).0
unfolding enqueue
enqueue-Frozen valid now uuid input rows =
    elim (Bool-cases (kind_matches (trim_space input.kind))) [
      | inr e ↦ rw e (Frozen-refl rows)
      | inl e ↦ rw e (elim (Bool-cases (valid input.payload)) [
        | inr f ↦ rw f (Frozen-refl rows)
        | inl f ↦ rw f (insert-Frozen _ rows)
      ])
    ]

heartbeat-Frozen :
    (now later : ℕ) (id token : String) (ttl : ℕ) (rows : Table)
    → Frozen rows (heartbeat now later id token ttl rows).0
unfolding heartbeat
heartbeat-Frozen now later id token ttl rows = elim (Bool-cases (ttl =ℕ 0)) [
  | inl z ↦ rw z (Frozen-refl rows)
  | inr nz ↦ rw nz (elim (Option-cases (find_row (leased id token) rows)) [
    | inl e ↦ rw e (Frozen-refl rows)
    | inr (t, e) ↦ rw e (
        update-Frozen (leased id token) _ rows (λ x. unfold extend_lease in refl)
          (λ u m h. ground arith))
  ])
]

fail-Frozen :
    (now later : ℕ) (id token reason : String) (retry : Bool) (delay : ℕ) (rows : Table)
    → Inv rows
    → Frozen rows (fail now later id token reason retry delay rows).0
unfolding fail
fail-Frozen now later id token reason retry delay rows v =
    elim (Option-cases (find_row (leased id token) rows)) [
      | inl e ↦ rw (e, fail) (Frozen-refl rows)
      | inr (t, e) ↦
          rw (e, fail)
            (elim (Bool-cases (retry && ltb t.attempts t.max_attempts)) [
              | inl again ↦
                  rw again (update-Frozen _ _ rows (λ x. unfold requeue_failed in refl) (named t e))
              | inr over ↦
                  rw over (update-Frozen _ _ rows (λ x. unfold end_failed in refl) (named t e))
            ])
    ]
  where
    named :
        (t : RuntimeTask)
        → find_row (leased id token) rows ≡ some t
        → (u : RuntimeTask) → InRows u rows
        → (u.id == id) ≡ true
        → is_terminal u.status ≡ false
    named t e u m h = ground (arith, leased_only id token rows t u v.distinct e m h)

complete-Frozen :
    (valid : String → Bool) (now : ℕ) (id token result : String) (rows : Table)
    → Frozen rows (complete valid now id token result rows).0
unfolding complete
complete-Frozen valid now id token result rows = elim (Bool-cases (valid result)) [
  | inl e ↦
      rw e (
        update-Frozen (leased id token) _ rows (λ x. unfold succeed in refl)
          (λ t m h. ground arith))
  | inr e ↦ rw e (Frozen-refl rows)
]

-- A call keeps every ended row.
pub step-Frozen : (c : Call) (rows : Table) → Inv rows → Frozen rows (step c rows)
unfolding step
step-Frozen (enqueues valid now uuid input) rows v = enqueue-Frozen valid now uuid input rows
step-Frozen (claims locked seen now token owner kinds ttl) rows v =
    claim-Frozen locked seen now token owner kinds ttl rows v
step-Frozen (heartbeats now later id token ttl) rows v =
    heartbeat-Frozen now later id token ttl rows
step-Frozen (completes valid now id token result) rows v =
    complete-Frozen valid now id token result rows
step-Frozen (releases now id token) rows v =
    unfold release in
    update-Frozen (releasable id token) _ rows (λ x. unfold give_back in refl)
      (λ t m h. ground arith)
step-Frozen (acknowledges now id token) rows v =
    unfold acknowledge_cancellation in
    update-Frozen (cancellable id token) _ rows (λ x. unfold end_cancelled in refl)
      (λ t m h. ground arith)
step-Frozen (fails now later id token reason retry delay) rows v =
    fail-Frozen now later id token reason retry delay rows v
step-Frozen (cancels now id) rows v =
    unfold cancel in
    update-Frozen (unfinished id) _ rows (λ x. unfold cancel_row in refl) (λ t m h. ground arith)
step-Frozen (reaps now) rows v =
    unfold reap_expired in
    Frozen-trans rows _ _
      (update-Frozen (reap_requeues (unix_milli now)) (reap_requeue (unix_milli now)) rows
        (λ x. unfold reap_requeue in refl) (λ t m h. ground arith))
      (update-Frozen (reap_ends (unix_milli now)) _ _ (λ x. unfold reap_end in refl)
        (λ t m h. ground arith))
