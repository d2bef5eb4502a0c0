-- ===== src/Runtime/Invariant.antt =====
-- Every call keeps the invariant of the table.
use knowlega.Base.{
  ℕ, String, ◌≡◌, refl, ◌⊎◌, inl, inr, Bool, true, false, Option, none, some, List, [], ◌∷◌, ◌++◌,
  arith, ◌==◌, eq_iff, if◌then◌else◌, any, All-append, Bool-cases, Option-cases,
}
use knowlega.Base.Text.{trim_space}
use knowlega.Runtime.Task.{is_pending, is_running, RuntimeTask, EnqueueInput}
use knowlega.Runtime.Store.{
  Table, update_where, enqueue, insert_row, existing, new_row, new_id, unix_milli, kind_matches,
}
use knowlega.Runtime.Claim.{
  claim, claim_checked, claim_row, lease_to, first_candidate, better, is_candidate, serial_violated,
}
use knowlega.Runtime.Rows.{
  InRows, DistinctIds-snoc, serial_violated-snoc, same_of_id, All-map_in, DistinctIds-map,
}
use knowlega.Runtime.Steps.{
  Call, enqueues, claims, heartbeats, completes, releases, acknowledges, fails, cancels, reaps,
  step, run, RowOk, Inv,
}
use knowlega.Runtime.FinishInv.{
  heartbeat-Inv, complete-Inv, release-Inv, acknowledge-Inv, fail-Inv, cancel-Inv, reap-Inv,
}

better_cases :
    (x t : RuntimeTask) (o : Option RuntimeTask) → better x o ≡ some t → (t ≡ x) ⊎ (o ≡ some t)
unfolding better
better_cases x t none h = inl (cc)
better_cases x t (some u) h = ground arith

pub first_candidate-in :
    (p : RuntimeTask → Bool) (rows : Table) (t : RuntimeTask)
    → first_candidate p rows ≡ some t
    → InRows t rows × (p t ≡ true)
unfolding first_candidate
first_candidate-in p [] t h = cc
first_candidate-in p (x ∷ rows) t h = elim (Bool-cases (p x)) [
  | inl e ↦ elim (better_cases x t (first_candidate p rows) (rw e at h)) [
    | inl same ↦ (inl same, rw same e)
    | inr later ↦ let (m, q) = first_candidate-in p rows t later in (inr m, q)
  ]
  | inr e ↦ let (m, q) = first_candidate-in p rows t (rw e at h) in (inr m, q)
]

lease_to-RowOk :
    (token owner : String) (expires now : ℕ) (t : RuntimeTask)
    → is_pending t.status ≡ true
    → RowOk t
    → RowOk (lease_to token owner expires now t)
unfolding lease_to
lease_to-RowOk token owner expires now t h ok = ground arith

claim_row-Inv :
    (token owner : String) (expires now : ℕ) (t : RuntimeTask) (rows : Table)
    → InRows t rows
    → is_pending t.status ≡ true
    → Inv rows
    → Inv (claim_row token owner expires now t rows).0
unfolding claim_row
claim_row-Inv token owner expires now t rows m idle v = elim (Bool-cases (serial_violated after)) [
  | inl e ↦ rw (e, claim_row) v
  | inr e ↦
      rw (e, claim_row)
        (record {
          rows_ok =
              All-map_in RowOk RowOk change rows
                (λ u n ok. elim (Bool-cases (u.id == t.id)) [
                  | inl same ↦ rw same (
                      lease_to-RowOk token owner expires now u
                        (rw (same_of_id rows u t v.distinct n m ((eq_iff u.id t.id).0 same)) idle)
                        ok)
                  | inr other ↦ rw other ok
                ])
                v.rows_ok;
          distinct =
              DistinctIds-map change rows
                (λ u. elim (Bool-cases (u.id == t.id)) [
                  | inl same ↦ rw same
                  | inr other ↦ rw other
                ])
                v.distinct;
          exclusive = e;
        })
]
  where
    change : RuntimeTask → RuntimeTask
    change u = if u.id == t.id then lease_to token owner expires now u else u

    after : Table
    after = update_where (λ u. u.id == t.id) (lease_to token owner expires now) rows

claim_checked-Inv :
    (locked : String → Bool) (seen : Table) (now : ℕ) (token owner : String) (kinds : List String)
    (ttl : ℕ) (rows : Table)
    → Inv rows
    → Inv (claim_checked locked seen now token owner kinds ttl rows).0
unfolding claim_checked
claim_checked-Inv locked seen now token owner kinds ttl rows v =
    elim (Option-cases (first_candidate (is_candidate locked seen (unix_milli now) kinds) rows)) [
      | inl e ↦ rw (e, claim_checked) v
      | inr (t, e) ↦
          let (m, q) = first_candidate-in _ rows t e in
          rw (e, claim_checked) (claim_row-Inv token owner _ _ t rows m (ground arith) v)
    ]

claim-Inv :
    (locked : String → Bool) (seen : Table) (now : ℕ) (token owner : String) (kinds : List String)
    (ttl : ℕ) (rows : Table)
    → Inv rows
    → Inv (claim locked seen now token owner kinds ttl rows).0
unfolding claim
claim-Inv locked seen now token owner kinds ttl rows v =
    ground (arith, claim_checked-Inv locked seen now token (trim_space owner) kinds ttl rows v)

append-Inv :
    (t : RuntimeTask) (rows : Table)
    → RowOk t
    → is_running t.status ≡ false
    → any (λ u. u.id == t.id) rows ≡ false
    → Inv rows
    → Inv (rows ++ t ∷ [])
append-Inv t rows ok idle new v = record {
  rows_ok = All-append RowOk rows (t ∷ []) v.rows_ok (ok, tt);
  distinct = DistinctIds-snoc t rows new v.distinct;
  exclusive = serial_violated-snoc t rows idle v.exclusive;
}

insert_row-Inv :
    (t : RuntimeTask) (rows : Table)
    → RowOk t
    → is_running t.status ≡ false
    → Inv rows
    → Inv (insert_row t rows).0
unfolding insert_row
insert_row-Inv t rows ok idle v = elim (Option-cases (existing t rows)) [
  | inr (u, e) ↦ rw (e, insert_row) v
  | inl e ↦
      rw (e, insert_row)
        (elim (Bool-cases (any (λ u. u.id == t.id) rows)) [
          | inl taken ↦ rw taken v
          | inr new ↦ rw new (append-Inv t rows ok idle new v)
        ])
]

new_row-RowOk :
    (now : ℕ) (id kind : String) (input : EnqueueInput) → RowOk (new_row now id kind input)
unfolding new_row
new_row-RowOk now id kind input = ground arith

enqueue-Inv :
    (valid : String → Bool) (now : ℕ) (uuid : String) (input : EnqueueInput) (rows : Table)
    → Inv rows
    → Inv (enqueue valid now uuid input rows).0
enqueue-Inv valid now uuid input rows v =
    unfold enqueue in
    elim (Bool-cases (kind_matches kind)) [
      | inr e ↦ rw e v
      | inl e ↦ rw e (elim (Bool-cases (valid input.payload)) [
        | inr f ↦ rw f v
        | inl f ↦ rw f (insert_row-Inv row rows (new_row-RowOk now id kind input) idle v)
      ])
    ]
  where
    kind : String
    kind = trim_space input.kind

    id : String
    id = new_id input.id uuid

    row : RuntimeTask
    row = new_row now id kind input

    idle : is_running row.status ≡ false
    idle = unfold new_row in refl

-- Each call keeps the lease, the end, the ids and the exclusion of serial keys consistent.
pub step-Inv : (c : Call) (rows : Table) → Inv rows → Inv (step c rows)
unfolding step
step-Inv (enqueues valid now uuid input) rows v = enqueue-Inv valid now uuid input rows v
step-Inv (claims locked seen now token owner kinds ttl) rows v =
    claim-Inv locked seen now token owner kinds ttl rows v
step-Inv (heartbeats now later id token ttl) rows v = heartbeat-Inv now later id token ttl rows v
step-Inv (completes valid now id token result) rows v =
    complete-Inv valid now id token result rows v
step-Inv (releases now id token) rows v = release-Inv now id token rows v
step-Inv (acknowledges now id token) rows v = acknowledge-Inv now id token rows v
step-Inv (fails now later id token reason retry delay) rows v =
    fail-Inv now later id token reason retry delay rows v
step-Inv (cancels now id) rows v = cancel-Inv now id rows v
step-Inv (reaps now) rows v = reap-Inv now rows v

pub run_from-Inv : (calls : List Call) (rows : Table) → Inv rows → Inv (run calls rows)
unfolding run
run_from-Inv [] rows v = v
run_from-Inv (c ∷ calls) rows v = run_from-Inv calls (step c rows) (step-Inv c rows v)

pub empty-Inv : Inv []
unfolding serial_violated
empty-Inv = record { rows_ok = tt; distinct = tt; exclusive = refl }

-- After any calls on an empty table, whatever the clocks, snapshots and locks: every row has a
-- lease exactly while it runs and an end exactly when it has ended, ids are distinct, and no two
-- running rows share a serial key.
pub run-Inv : (calls : List Call) → Inv (run calls [])
run-Inv calls = run_from-Inv calls [] empty-Inv
