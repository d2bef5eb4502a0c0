-- ===== src/Runtime/Fencing.antt =====
-- A lease token that no running row holds does nothing, and a lease is given up once.
use knowlega.Base.{
  ℕ, ◌<◌, String, ◌≡◌, refl, inl, inr, Bool, true, false, none, [], ◌∷◌, ◌&&◌, arith, ◌==◌, any,
  count_if, ltb, Bool-cases, Option-cases,
}
use knowlega.Runtime.Task.{RuntimeTask}
use knowlega.Runtime.Store.{ok, Table, update_where, find_row}
use knowlega.Runtime.Finish.{
  leased, heartbeat, complete, succeed, releasable, release, give_back, cancellable,
  acknowledge_cancellation, end_cancelled, fail, requeue_failed, end_failed,
}
use knowlega.Runtime.Rows.{InRows}

update_where-none :
    (p : RuntimeTask → Bool) (f : RuntimeTask → RuntimeTask) (rows : Table)
    → any p rows ≡ false
    → update_where p f rows ≡ rows
unfolding update_where
update_where-none p f [] h = refl
update_where-none p f (t ∷ rows) h = ground (arith, update_where-none p f rows)

count_if-none : (p : RuntimeTask → Bool) (rows : Table) → any p rows ≡ false → count_if p rows ≡ 0
count_if-none p [] h = refl
count_if-none p (t ∷ rows) h = ground (arith, count_if-none p rows)

find_row-none :
    (p : RuntimeTask → Bool) (rows : Table) → any p rows ≡ false → find_row p rows ≡ none
unfolding find_row
find_row-none p [] h = refl
find_row-none p (t ∷ rows) h = ground (arith, find_row-none p rows)

any-weaken :
    (p q : RuntimeTask → Bool) (rows : Table)
    → ((t : RuntimeTask) → q t ≡ true → p t ≡ true)
    → any p rows ≡ false
    → any q rows ≡ false
any-weaken p q [] w h = refl
any-weaken p q (t ∷ rows) w h = ground (arith, w t, any-weaken p q rows w)

-- If no running row holds the token, then a heartbeat with a positive ttl, a completion with valid
-- JSON, a release, an acknowledgement and a failure are all refused and leave the table as it was.
pub stale_lease :
    (valid : String → Bool) (now later : ℕ) (id token result reason : String) (retry : Bool)
    (ttl delay : ℕ) (rows : Table)
    → any (leased id token) rows ≡ false
    → 0 < ttl
    → valid result ≡ true
    → (heartbeat now later id token ttl rows ≡ (rows, ok (false, false)))
      × (complete valid now id token result rows ≡ (rows, ok false))
      × (release now id token rows ≡ (rows, false))
      × (acknowledge_cancellation now id token rows ≡ (rows, false))
      × (fail now later id token reason retry delay rows ≡ (rows, (false, false)))
stale_lease valid now later id token result reason retry ttl delay rows stale pos json =
    let none_found = find_row-none (leased id token) rows stale in
    let no_release =
      any-weaken (leased id token) (releasable id token) rows (λ t h. ground arith) stale in
    let no_ack =
      any-weaken (leased id token) (cancellable id token) rows (λ t h. ground arith) stale in
    (
      unfold heartbeat in ground (arith, none_found),
      unfold complete in rw (json, update_where-none _ _ rows stale, count_if-none _ rows stale),
      unfold release in rw (update_where-none _ _ rows no_release, count_if-none _ rows no_release),
      unfold acknowledge_cancellation in
          rw (update_where-none _ _ rows no_ack, count_if-none _ rows no_ack),
      unfold fail in rw (none_found, fail),
    )

all_changed :
    (p q : RuntimeTask → Bool) (f : RuntimeTask → RuntimeTask) (rows : Table)
    → ((t : RuntimeTask) → InRows t rows → p t ≡ true → q (f t) ≡ false)
    → ((t : RuntimeTask) → InRows t rows → p t ≡ false → q t ≡ false)
    → any q (update_where p f rows) ≡ false
unfolding update_where
all_changed p q f [] changed other = refl
all_changed p q f (t ∷ rows) changed other =
    let rest = all_changed p q f rows (λ u m. changed u (inr m)) (λ u m. other u (inr m)) in
    elim (Bool-cases (p t)) [
      | inl e ↦ rw (e, changed t (inl refl) e) rest
      | inr e ↦ rw (e, other t (inl refl) e) rest
    ]

complete_ends :
    (valid : String → Bool) (now : ℕ) (id token result : String) (rows : Table)
    → valid result ≡ true
    → any (leased id token) (complete valid now id token result rows).0 ≡ false
unfolding complete
complete_ends valid now id token result rows json = rw json (
    all_changed (leased id token) (leased id token) (succeed _ _) rows (λ t m h. ground arith)
      (λ t m h. h))

any-none_found :
    (p : RuntimeTask → Bool) (rows : Table) → find_row p rows ≡ none → any p rows ≡ false
unfolding find_row
any-none_found p [] h = refl
any-none_found p (t ∷ rows) h = ground (arith, any-none_found p rows)

fail_ends :
    (now later : ℕ) (id token reason : String) (retry : Bool) (delay : ℕ) (rows : Table)
    → any (leased id token) (fail now later id token reason retry delay rows).0 ≡ false
unfolding fail
fail_ends now later id token reason retry delay rows =
    elim (Option-cases (find_row (leased id token) rows)) [
      | inl e ↦ rw (e, fail) (any-none_found (leased id token) rows e)
      | inr (t, e) ↦
          rw (e, fail)
            (elim (Bool-cases (retry && ltb t.attempts t.max_attempts)) [
              | inl again ↦ rw again (
                  all_changed (λ u. u.id == id) (leased id token) (requeue_failed _ _ _) rows
                    (λ u m h. ground arith) (λ u m h. ground arith))
              | inr over ↦ rw over (
                  all_changed (λ u. u.id == id) (leased id token) (end_failed _ _ _) rows
                    (λ u m h. ground arith) (λ u m h. ground arith))
            ])
    ]

any-in :
    (p : RuntimeTask → Bool) (rows : Table) (t : RuntimeTask)
    → any p rows ≡ false
    → InRows t rows
    → p t ≡ false
any-in p [] t h m = absurd m
any-in p (u ∷ rows) t h (inl e) = rw e (ground arith)
any-in p (u ∷ rows) t h (inr m) = any-in p rows t (ground arith) m

release_spares :
    (now : ℕ) (id token : String) (rows : Table)
    → any (releasable id token) (release now id token rows).0 ≡ false
unfolding release
release_spares now id token rows =
    all_changed (releasable id token) (releasable id token) (give_back _) rows
      (λ t m h. ground arith) (λ t m h. h)

ack_ends :
    (now : ℕ) (id token : String) (rows : Table)
    → any (releasable id token) rows ≡ false
    → any (leased id token) (acknowledge_cancellation now id token rows).0 ≡ false
unfolding acknowledge_cancellation
ack_ends now id token rows spared =
    all_changed (cancellable id token) (leased id token) (end_cancelled _) rows
      (λ t m h. ground arith)
      (λ t m h. ground (arith, any-in (releasable id token) rows t spared m))

-- No row holds the lease after a completion with valid JSON, after a failure, and after a release
-- followed by an acknowledgement.
pub lease_given_up :
    (valid : String → Bool) (now later : ℕ) (id token result reason : String) (retry : Bool)
    (delay : ℕ) (rows : Table)
    → valid result ≡ true
    → (any (leased id token) (complete valid now id token result rows).0 ≡ false)
      × (any (leased id token) (fail now later id token reason retry delay rows).0 ≡ false)
      × (any
            (leased id token)
            (acknowledge_cancellation later id token (release now id token rows).0).0
          ≡ false)
lease_given_up valid now later id token result reason retry delay rows json = (
  complete_ends valid now id token result rows json,
  fail_ends now later id token reason retry delay rows,
  ack_ends later id token _ (release_spares now id token rows),
)
