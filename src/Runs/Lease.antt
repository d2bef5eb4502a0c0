-- ===== src/Runs/Lease.antt =====
-- The methods of RunRepository by which a runner takes a run and gives it up.
use knowlega.Base.{
  ℕ, ◌+◌, String, Bool, true, false, not, ◌&&◌, ◌||◌, Option, none, some, List, [], ◌∷◌, ◌++◌, ◌==◌,
  if◌then◌else◌, any, count_if, ◌=ℕ◌, ltb, leb,
}
use knowlega.Runs.Run.{
  RunStatus, run_pending, run_running, is_node, run_done, Run, bad_input, session_busy, RunAnswer,
  ok, err, RunTable, update_runs, session_violated, holds_text, find_run, or_else, unleased,
  end_run, fail_for_good,
}

-- session_id NOT IN (SELECT session_id FROM runs WHERE status='running' AND runtime_owner='node');
-- `seen` is the snapshot of the statement.
abbrev pub node_busy : RunTable → Run → Bool
node_busy seen t =
    any (λ u. u.session_id == t.session_id && run_running u.status && is_node u.runtime_owner) seen

-- `locked` are the rows that FOR UPDATE SKIP LOCKED passes over.
unfoldable pub claimable : (String → Bool) → RunTable → Run → Bool
claimable locked seen t =
    run_pending t.status && is_node t.runtime_owner && not (node_busy seen t) && not (locked t.id)

abbrev pub older_run : Run → Option Run → Option Run
older_run t none = some t
older_run t (some u) = if ltb u.created_at t.created_at then some u else some t

-- ORDER BY created_at ASC LIMIT 1; of runs of the same time the first in the table.
unfoldable pub oldest_run : (Run → Bool) → RunTable → Option Run
oldest_run p [] = none
oldest_run p (t ∷ rows) = let rest = oldest_run p rows in if p t then older_run t rest else rest

unfoldable pub lease_row : String → String → ℕ → ℕ → Run → Run
lease_row token worker expires now t = record t {
  status = RunStatus.running;
  lease_token = some token;
  lease_expires_at = some expires;
  worker_id = some worker;
  attempts = t.attempts + 1;
  started_at = or_else t.started_at now;
}

-- A violation of the index is an error of the statement.
unfoldable pub lease_run :
    String → String → ℕ → ℕ → Run → RunTable → RunTable × RunAnswer (Option Run)
unfolding update_runs session_violated lease_row
lease_run token worker expires now t rows =
    let rows' = update_runs (λ u. u.id == t.id) (lease_row token worker expires now) rows in
    if session_violated rows'
    then (rows, err session_busy)
    else (rows', ok (some (lease_row token worker expires now t)))

abbrev pub lease_found :
    String → String → ℕ → ℕ → Option Run → RunTable → RunTable × RunAnswer (Option Run)
lease_found token worker expires now none rows = (rows, ok none)
lease_found token worker expires now (some t) rows = lease_run token worker expires now t rows

unfoldable pub claim_run :
    (String → Bool)
    → RunTable
    → ℕ
    → String
    → String
    → ℕ
    → RunTable
    → RunTable × RunAnswer (Option Run)
unfolding oldest_run claimable lease_run
claim_run locked seen now token worker ttl rows =
    if worker == ""
    then (rows, err bad_input)
    else lease_found token worker (now + ttl) now (oldest_run (claimable locked seen) rows) rows

unfoldable pub claim_by_id :
    (String → Bool)
    → RunTable
    → ℕ
    → String
    → String
    → String
    → ℕ
    → RunTable
    → RunTable × RunAnswer (Option Run)
unfolding find_run claimable lease_run
claim_by_id locked seen now token id worker ttl rows =
    if id == "" || worker == ""
    then (rows, err bad_input)
    else lease_found token worker (now + ttl) now
        (find_run (λ t. t.id == id && claimable locked seen t) rows) rows

abbrev pub leased_to : String → String → Run → Bool
leased_to id token t = t.id == id && holds_text token t.lease_token && run_running t.status

unfoldable pub extend_run_lease : ℕ → Run → Run
extend_run_lease expires t = record t { lease_expires_at = some expires }

unfoldable pub heartbeat_run : ℕ → String → String → RunTable → RunTable × Bool
unfolding update_runs extend_run_lease
heartbeat_run expires id token rows = (
  update_runs (leased_to id token) (extend_run_lease expires) rows,
  count_if (leased_to id token) rows =ℕ 1,
)

unfoldable pub return_run : Run → Run
return_run t = record (unleased t) { status = RunStatus.pending }

unfoldable pub release_lease : String → String → RunTable → RunTable × Bool
unfolding update_runs return_run
release_lease id token rows =
    (update_runs (leased_to id token) return_run rows, count_if (leased_to id token) rows =ℕ 1)

unfoldable pub requeue_run : Run → Run
requeue_run t = record (unleased t) {
  status = RunStatus.pending;
  error_attempts = t.error_attempts + 1;
}

-- Accepted, and requeued; `result` is the JSON of a session and a reason.
unfoldable pub fail_run :
    (String → String → String)
    → ℕ
    → String
    → String
    → String
    → Bool
    → RunTable
    → RunTable × (Bool × Bool)
unfolding update_runs find_run requeue_run fail_for_good
fail_run result now id token reason retry rows = elim (find_run (leased_to id token) rows) [
  | none ↦ (rows, (false, false))
  | some t ↦
      if retry && ltb (t.error_attempts + 1) t.max_attempts
      then (update_runs (λ u. u.id == id) requeue_run rows, (true, true))
      else (
        update_runs (λ u. u.id == id) (fail_for_good now (result t.session_id reason)) rows,
        (true, false),
      )
]

-- completion_key IS NULL OR completion_key = $2
abbrev pub same_or_null : String → Option String → Bool
same_or_null key none = true
same_or_null key (some k) = k == key

abbrev pub completable : String → String → String → Run → Bool
completable id token key t = leased_to id token t && same_or_null key t.completion_key

unfoldable pub complete_run : ℕ → String → String → Run → Run
unfolding end_run
complete_run now key result t = record (end_run now RunStatus.done (some result) t) {
  completion_key = some key;
}

abbrev pub completed_with : String → String → Run → Bool
completed_with id key t = t.id == id && run_done t.status && holds_text key t.completion_key

-- A run that is done already under the same key counts as completed.
unfoldable pub complete_leased :
    (String → Bool) → ℕ → String → String → String → String → RunTable → RunTable × RunAnswer Bool
unfolding update_runs complete_run
complete_leased valid now id token key result rows =
    if key == "" || not (valid result)
    then (rows, err bad_input)
    else if any (completable id token key) rows
    then (update_runs (completable id token key) (complete_run now key result) rows, ok true)
    else (rows, ok (any (completed_with id key) rows))

-- lease_expires_at <= $1
abbrev pub is_lapsed : ℕ → Option ℕ → Bool
is_lapsed now none = false
is_lapsed now (some at) = leb at now

abbrev pub is_too_old : ℕ → ℕ → Option ℕ → Bool
is_too_old now max_age none = false
is_too_old now max_age (some at) = not (max_age =ℕ 0) && ltb (at + max_age) now

abbrev pub is_over_claimed : ℕ → ℕ → Bool
is_over_claimed max_claims attempts = not (max_claims =ℕ 0) && leb max_claims attempts

abbrev pub may_requeue : ℕ → ℕ → ℕ → Run → Bool
may_requeue now max_age max_claims t =
    not (is_too_old now max_age t.started_at)
    && ltb (t.error_attempts + 1) t.max_attempts
    && not (is_over_claimed max_claims t.attempts)

-- WHERE id=$ AND lease_token=$ AND status='running' AND lease_expires_at <= $
abbrev pub still_expired : ℕ → Run → Run → Bool
still_expired now t u =
    u.id == t.id
    && (elim t.lease_token [ none ↦ false | some token ↦ holds_text token u.lease_token ])
    && run_running u.status
    && is_lapsed now u.lease_expires_at

unfoldable pub park : ℕ → String → Run → Run
unfolding end_run
park now result t = end_run now RunStatus.failed (some result) t

-- What ReapExpired reports of a run: that it was requeued, or parked.
abbrev pub ReapEvent : Type 0
ReapEvent = Run × Bool

-- The update of one candidate; `result` is the JSON of its session and of the reason.
unfoldable pub reap_one :
    (Run → String) → ℕ → ℕ → ℕ → Run → RunTable × List ReapEvent → RunTable × List ReapEvent
unfolding update_runs return_run park
reap_one result now max_age max_claims t (rows, events) =
    let again = may_requeue now max_age max_claims t in
    (
      update_runs (still_expired now t) (if again then return_run else park now (result t)) rows,
      (if count_if (still_expired now t) rows =ℕ 1 then events ++ (t, again) ∷ [] else events),
    )

-- The candidates are read first, as `seen`; each is updated if it still is one. A row without a token
-- would be an error of Scan, and there is none among those that have an expiry. A limit of 0 stands
-- for all that are not positive, and for none.
unfoldable pub reap_runs :
    (Run → String) → ℕ → ℕ → ℕ → List Run → RunTable × List ReapEvent → RunTable × List ReapEvent
unfolding reap_one
reap_runs result now max_age max_claims [] o = o
reap_runs result now max_age max_claims (t ∷ seen) o =
    reap_runs result now max_age max_claims seen (
      if run_running t.status && is_lapsed now t.lease_expires_at
      then reap_one result now max_age max_claims t o
      else o)
