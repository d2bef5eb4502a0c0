-- ===== src/Runtime/Finish.antt =====
-- The methods of RuntimeTaskRepository by which the holder of a lease keeps it or gives it up, and
-- Cancel and ReapExpired.
use knowlega.Base.{
  ℕ, ◌+◌, String, Bool, true, false, not, ◌&&◌, ◌||◌, Option, none, some, ◌==◌, ltb, leb, ◌=ℕ◌,
  if◌then◌else◌, count_if,
}
use knowlega.Runtime.Task.{
  Status, pending, succeeded, failed, cancelled, dead, is_pending, is_running, RuntimeTask, holds,
}
use knowlega.Runtime.Store.{
  Result, ok, err, bad_ttl, bad_result, Table, unix_milli, update_where, find_row,
}

-- WHERE id=$ AND lease_token=$ AND status='running'
abbrev pub leased : String → String → RuntimeTask → Bool
leased id token t = t.id == id && holds token t.lease_token && is_running t.status

abbrev pub no_lease : RuntimeTask → RuntimeTask
no_lease t = record t { lease_token = none; lease_owner = none; lease_expires_at = none }

unfoldable pub extend_lease : ℕ → ℕ → RuntimeTask → RuntimeTask
extend_lease expires now u = record u { lease_expires_at = some expires; updated_at = now }

-- Accepted, and whether a cancellation is asked for. `now` is the first clock reading, `later` the
-- second.
unfoldable pub heartbeat : ℕ → ℕ → String → String → ℕ → Table → Table × Result (Bool × Bool)
unfolding find_row extend_lease
heartbeat now later id token ttl rows =
    if ttl =ℕ 0 then (rows, err bad_ttl) else elim (find_row (leased id token) rows) [
      | none ↦ (rows, ok (false, false))
      | some t ↦ (
        update_where (leased id token) (extend_lease (unix_milli (now + ttl)) (unix_milli later))
            rows,
        ok (true, t.cancel_requested),
      )
    ]

unfoldable pub succeed : ℕ → String → RuntimeTask → RuntimeTask
succeed now result u = record (no_lease u) {
  status = succeeded;
  result = some result;
  last_error = none;
  updated_at = now;
  finished_at = some now;
}

unfoldable pub complete :
    (String → Bool) → ℕ → String → String → String → Table → Table × Result Bool
unfolding succeed
complete valid_json now id token result rows =
    if not (valid_json result) then (rows, err bad_result) else (
      update_where (leased id token) (succeed (unix_milli now) result) rows,
      ok (count_if (leased id token) rows =ℕ 1),
    )

abbrev pub releasable : String → String → RuntimeTask → Bool
releasable id token t = leased id token t && not t.cancel_requested

unfoldable pub give_back : ℕ → RuntimeTask → RuntimeTask
give_back now u = record (no_lease u) { status = pending; updated_at = now }

unfoldable pub release : ℕ → String → String → Table → Table × Bool
unfolding give_back
release now id token rows = (
  update_where (releasable id token) (give_back (unix_milli now)) rows,
  count_if (releasable id token) rows =ℕ 1,
)

abbrev pub cancellable : String → String → RuntimeTask → Bool
cancellable id token t = leased id token t && t.cancel_requested

unfoldable pub end_cancelled : ℕ → RuntimeTask → RuntimeTask
end_cancelled now u = record (no_lease u) {
  status = cancelled;
  updated_at = now;
  finished_at = some now;
}

unfoldable pub acknowledge_cancellation : ℕ → String → String → Table → Table × Bool
unfolding end_cancelled
acknowledge_cancellation now id token rows = (
  update_where (cancellable id token) (end_cancelled (unix_milli now)) rows,
  count_if (cancellable id token) rows =ℕ 1,
)

unfoldable pub requeue_failed : ℕ → ℕ → String → RuntimeTask → RuntimeTask
requeue_failed now available reason u = record (no_lease u) {
  status = pending;
  available_at = available;
  last_error = some reason;
  updated_at = now;
}

unfoldable pub end_failed : ℕ → Status → String → RuntimeTask → RuntimeTask
end_failed now status reason u = record (no_lease u) {
  status = status;
  last_error = some reason;
  updated_at = now;
  finished_at = some now;
}

-- Accepted, and requeued. The row is locked from the SELECT on, and both updates name it by its id.
unfoldable pub fail : ℕ → ℕ → String → String → String → Bool → ℕ → Table → Table × (Bool × Bool)
unfolding find_row requeue_failed end_failed
fail now later id token reason retry delay rows = elim (find_row (leased id token) rows) [
  | none ↦ (rows, (false, false))
  | some t ↦
      if retry && ltb t.attempts t.max_attempts
      then (
        update_where (λ u. u.id == id)
            (requeue_failed (unix_milli now) (unix_milli (later + delay)) reason) rows,
        (true, true),
      )
      else (
        update_where (λ u. u.id == id)
            (end_failed (unix_milli now) (if retry then dead else failed) reason) rows,
        (true, false),
      )
]

abbrev pub unfinished : String → RuntimeTask → Bool
unfinished id t = t.id == id && (is_pending t.status || is_running t.status)

-- The three CASE expressions read the old row.
unfoldable pub cancel_row : ℕ → RuntimeTask → RuntimeTask
cancel_row now u = record u {
  status = if is_pending u.status then cancelled else u.status;
  cancel_requested = if is_running u.status then true else u.cancel_requested;
  finished_at = if is_pending u.status then some now else u.finished_at;
  updated_at = now;
}

unfoldable pub cancel : ℕ → String → Table → Table × Bool
unfolding cancel_row
cancel now id rows = (
  update_where (unfinished id) (cancel_row (unix_milli now)) rows,
  count_if (unfinished id) rows =ℕ 1,
)

-- lease_expires_at <= $1, which is not true of NULL.
abbrev pub expired : ℕ → Option ℕ → Bool
expired now none = false
expired now (some at) = leb at now

abbrev pub reap_requeues : ℕ → RuntimeTask → Bool
reap_requeues now t =
    is_running t.status
    && expired now t.lease_expires_at
    && not t.cancel_requested
    && ltb t.attempts t.max_attempts

abbrev pub reap_ends : ℕ → RuntimeTask → Bool
reap_ends now t =
    is_running t.status
    && expired now t.lease_expires_at
    && (t.cancel_requested || leb t.max_attempts t.attempts)

unfoldable pub reap_requeue : ℕ → RuntimeTask → RuntimeTask
reap_requeue now u = record (no_lease u) {
  status = pending;
  last_error = some "lease expired";
  updated_at = now;
}

unfoldable pub reap_end : ℕ → RuntimeTask → RuntimeTask
reap_end now u = record (no_lease u) {
  status = if u.cancel_requested then cancelled else dead;
  last_error = if u.cancel_requested then u.last_error else some "lease expired";
  updated_at = now;
  finished_at = some now;
}

-- The new table, and how many rows were requeued and ended.
unfoldable pub reap_expired : ℕ → Table → Table × (ℕ × ℕ)
unfolding reap_requeue reap_end
reap_expired now rows =
    let at = unix_milli now in
    let rows' = update_where (reap_requeues at) (reap_requeue at) rows in
    (
      update_where (reap_ends at) (reap_end at) rows',
      (count_if (reap_requeues at) rows, count_if (reap_ends at) rows'),
    )
