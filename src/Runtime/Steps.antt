-- ===== src/Runtime/Steps.antt =====
-- Every history of calls on the queue, and what holds of the table after each call.
use knowlega.Base.{
  ℕ, ◌<◌, String, ◌≡◌, ◌≢◌, ◌⊎◌, inl, inr, Bool, true, false, List, [], ◌∷◌, map, if◌then◌else◌,
  is_some, All, Bool-cases,
}
use knowlega.Runtime.Task.{succeeded, is_running, is_terminal, RuntimeTask, EnqueueInput}
use knowlega.Runtime.Store.{Table, update_where, enqueue}
use knowlega.Runtime.Claim.{claim, serial_violated}
use knowlega.Runtime.Finish.{
  heartbeat, complete, release, acknowledge_cancellation, fail, cancel, reap_expired,
}
use knowlega.Runtime.Rows.{
  InRows, DistinctIds, Calm, All-map_in, same_of_id, DistinctIds-map, serial_violated-Calm,
}

-- A call of a method with its arguments and what it is told by the clock, the uuid generator, the
-- JSON check and PostgreSQL.
pub data Call : Type 0 where
  enqueues : (String → Bool) → ℕ → String → EnqueueInput → Call
  claims : (String → Bool) → Table → ℕ → String → String → List String → ℕ → Call
  heartbeats : ℕ → ℕ → String → String → ℕ → Call
  completes : (String → Bool) → ℕ → String → String → String → Call
  releases : ℕ → String → String → Call
  acknowledges : ℕ → String → String → Call
  fails : ℕ → ℕ → String → String → String → Bool → ℕ → Call
  cancels : ℕ → String → Call
  reaps : ℕ → Call

unfoldable pub step : Call → Table → Table
step (enqueues valid now uuid input) rows = (enqueue valid now uuid input rows).0
step (claims locked seen now token owner kinds ttl) rows =
    (claim locked seen now token owner kinds ttl rows).0
step (heartbeats now later id token ttl) rows = (heartbeat now later id token ttl rows).0
step (completes valid now id token result) rows = (complete valid now id token result rows).0
step (releases now id token) rows = (release now id token rows).0
step (acknowledges now id token) rows = (acknowledge_cancellation now id token rows).0
step (fails now later id token reason retry delay) rows =
    (fail now later id token reason retry delay rows).0
step (cancels now id) rows = (cancel now id rows).0
step (reaps now) rows = (reap_expired now rows).0

unfoldable pub run : List Call → Table → Table
run [] rows = rows
run (c ∷ calls) rows = run calls (step c rows)

-- A lease is held exactly while a task runs, and a task that has ended, and no other, has its end.
-- A task that runs has been started and counted, one that has succeeded has a result.
pub record RowOk (t : RuntimeTask) : Type 0 where
  pub token_iff : is_some t.lease_token ≡ is_running t.status
  pub owner_iff : is_some t.lease_owner ≡ is_running t.status
  pub expiry_iff : is_some t.lease_expires_at ≡ is_running t.status
  pub finished_iff : is_some t.finished_at ≡ is_terminal t.status
  pub started : (is_running t.status ≡ false) ⊎ (is_some t.started_at ≡ true)
  pub attempted : (is_running t.status ≡ false) ⊎ (0 < t.attempts)
  pub answered : (t.status ≢ succeeded) ⊎ (is_some t.result ≡ true)
  pub budgeted : 0 < t.max_attempts

pub record Inv (rows : Table) : Type 0 where
  pub rows_ok : All RowOk rows
  pub distinct : DistinctIds rows
  pub exclusive : serial_violated rows ≡ false

pub Inv-map :
    (g : RuntimeTask → RuntimeTask) (rows : Table)
    → ((t : RuntimeTask) → (g t).id ≡ t.id)
    → ((t : RuntimeTask) → InRows t rows → RowOk t → RowOk (g t))
    → Calm g
    → Inv rows
    → Inv (map g rows)
Inv-map g rows same fine c v = record {
  rows_ok = All-map_in RowOk RowOk g rows fine v.rows_ok;
  distinct = DistinctIds-map g rows same v.distinct;
  exclusive = serial_violated-Calm g rows c v.exclusive;
}

-- A row that has the id of one that passes a test passes the test.
pub only_row :
    (rows : Table) (p : RuntimeTask → Bool) (t u : RuntimeTask)
    → DistinctIds rows
    → InRows t rows
    → p t ≡ true
    → InRows u rows
    → u.id ≡ t.id
    → p u ≡ true
only_row rows p t u d m h n e = rw (same_of_id rows u t d n m e) h

-- An UPDATE keeps the invariant if the change keeps each row that it is made to, and starts none.
module _ (p : RuntimeTask → Bool) (f : RuntimeTask → RuntimeTask) where
  guarded : RuntimeTask → RuntimeTask
  guarded t = if p t then f t else t

  pub update-Inv :
      (rows : Table)
      → ((t : RuntimeTask) → (f t).id ≡ t.id)
      → ((t : RuntimeTask) → (f t).serial_key ≡ t.serial_key)
      → ((t : RuntimeTask) → is_running (f t).status ≡ true → is_running t.status ≡ true)
      → ((t : RuntimeTask) → InRows t rows → p t ≡ true → RowOk t → RowOk (f t))
      → Inv rows
      → Inv (update_where p f rows)
  unfolding update_where guarded
  update-Inv rows same serial stops fine v =
      Inv-map guarded rows (λ t. elim (Bool-cases (p t)) [ inl e ↦ rw e (same t) | inr e ↦ rw e ])
        (λ t m ok. elim (Bool-cases (p t)) [ inl e ↦ rw e (fine t m e ok) | inr e ↦ rw e ok ])
        (record {
          stops = λ t. elim (Bool-cases (p t)) [ inl e ↦ rw e (stops t) | inr e ↦ rw e (λ h. h) ];
          serial = λ t. elim (Bool-cases (p t)) [ inl e ↦ rw e (serial t) | inr e ↦ rw e ];
        })
        v
