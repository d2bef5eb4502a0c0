-- ===== src/Runs/Run.antt =====
-- The rows of the table runs, and the methods of RunRepository that the owners of a run call without a
-- lease. Times are in milliseconds. A connection's error leaves the table as it was.
use knowlega.Base.{
  ℕ, zero, suc, ◌+◌, String, Bool, true, false, not, ◌&&◌, ◌||◌, Option, none, some, List, [], ◌∷◌,
  ◌++◌, map, ◌==◌, if◌then◌else◌, any, count_if, ◌=ℕ◌,
}

pub data RunStatus : Type 0 where
  pending running done failed : RunStatus

pub data Owner : Type 0 where
  node go : Owner

abbrev pub run_pending : RunStatus → Bool
run_pending RunStatus.pending = true
run_pending _ = false

abbrev pub run_running : RunStatus → Bool
run_running RunStatus.running = true
run_running _ = false

abbrev pub run_done : RunStatus → Bool
run_done RunStatus.done = true
run_done _ = false

-- 'pending' or 'running'.
abbrev pub is_active : RunStatus → Bool
is_active RunStatus.pending = true
is_active RunStatus.running = true
is_active RunStatus.done = false
is_active RunStatus.failed = false

abbrev pub is_node : Owner → Bool
is_node Owner.node = true
is_node Owner.go = false

pub record Run : Type 0 where
  pub id : String
  pub session_id : String
  pub status : RunStatus
  pub request : String
  pub result : Option String
  pub delivery_state : Option String
  pub idempotency_key : Option String
  pub attempts : ℕ
  pub error_attempts : ℕ
  pub max_attempts : ℕ
  pub lease_token : Option String
  pub lease_expires_at : Option ℕ
  pub worker_id : Option String
  pub created_at : ℕ
  pub started_at : Option ℕ
  pub finished_at : Option ℕ
  pub completion_key : Option String
  pub runtime_owner : Owner

-- Arguments that are refused, a key that is taken, the index on running sessions, a run that is over.
pub data RunError : Type 0 where
  bad_input duplicate session_busy not_active : RunError

pub data RunAnswer (A : Type 0) : Type 0 where
  ok : A → RunAnswer A
  err : RunError → RunAnswer A

abbrev pub RunTable : Type 0
RunTable = List Run

unfoldable pub update_runs : (Run → Bool) → (Run → Run) → RunTable → RunTable
update_runs p f rows = map (λ t. if p t then f t else t) rows

-- The unique index on session_id where the status is running.
abbrev pub clash_running : Run → Run → Bool
clash_running t u = run_running t.status && run_running u.status && t.session_id == u.session_id

unfoldable pub session_violated : RunTable → Bool
session_violated [] = false
session_violated (t ∷ rows) = any (clash_running t) rows || session_violated rows

abbrev pub holds_text : String → Option String → Bool
holds_text s none = false
holds_text s (some t) = t == s

unfoldable pub find_run : (Run → Bool) → RunTable → Option Run
find_run p [] = none
find_run p (t ∷ rows) = if p t then some t else find_run p rows

abbrev pub text_or_null : String → Option String
text_or_null s = if s == "" then none else some s

abbrev pub attempts_or_three : ℕ → ℕ
attempts_or_three zero = 3
attempts_or_three (suc n) = suc n

unfoldable pub new_run : ℕ → String → Owner → String → String → String → ℕ → Run
new_run now id owner session request key max = record {
  id = id;
  session_id = session;
  status = RunStatus.pending;
  request = request;
  result = none;
  delivery_state = none;
  idempotency_key = text_or_null key;
  attempts = 0;
  error_attempts = 0;
  max_attempts = attempts_or_three max;
  lease_token = none;
  lease_expires_at = none;
  worker_id = none;
  created_at = now;
  started_at = none;
  finished_at = none;
  completion_key = none;
  runtime_owner = owner;
}

-- INSERT … ON CONFLICT(idempotency_key) DO NOTHING, then the SELECT of the run that has the key.
-- NULL keys never conflict.
abbrev pub run_of_key : Option String → RunTable → Option Run
run_of_key none rows = none
run_of_key (some key) rows = find_run (λ u. holds_text key u.idempotency_key) rows

unfoldable pub insert_run : Run → RunTable → RunTable × RunAnswer (String × Bool)
unfolding find_run
insert_run t rows = elim (run_of_key t.idempotency_key rows) [
  | some u ↦ (rows, ok (u.id, true))
  | none ↦
      if any (λ u. u.id == t.id) rows
      then (rows, err duplicate)
      else (rows ++ t ∷ [], ok (t.id, false))
]

-- `max` is 0 for every number that is not positive, `valid` is json.Valid.
unfoldable pub enqueue_run :
    (String → Bool)
    → ℕ
    → String
    → String
    → Owner
    → String
    → String
    → String
    → ℕ
    → RunTable
    → RunTable × RunAnswer (String × Bool)
unfolding insert_run new_run
enqueue_run valid now uuid id owner session request key max rows =
    if session == "" || not (valid request)
    then (rows, err bad_input)
    else insert_run (new_run now (if id == "" then uuid else id) owner session request key max) rows

abbrev pub active : String → Run → Bool
active id t = t.id == id && is_active t.status

-- Whether any row was affected.
abbrev pub affected : (Run → Bool) → RunTable → RunAnswer (Unit {0})
affected p rows = if count_if p rows =ℕ 0 then err not_active else ok tt

abbrev pub or_else : Option ℕ → ℕ → Option ℕ
or_else none n = some n
or_else (some m) n = some m

unfoldable pub begin_run : ℕ → Run → Run
begin_run now t = record t {
  status = RunStatus.running;
  started_at = or_else t.started_at now;
  attempts = t.attempts + 1;
}

-- A statement that would violate the index is refused as a whole.
unfoldable pub guarded :
    RunTable → RunTable → RunAnswer (Unit {0}) → RunTable × RunAnswer (Unit {0})
unfolding session_violated
guarded before after answer =
    if session_violated after then (before, err session_busy) else (after, answer)

unfoldable pub start_runtime : ℕ → String → RunTable → RunTable × RunAnswer (Unit {0})
unfolding update_runs begin_run guarded
start_runtime now id rows =
    guarded rows (update_runs (active id) (begin_run now) rows) (affected (active id) rows)

abbrev pub unleased : Run → Run
unleased t = record t { lease_token = none; lease_expires_at = none; worker_id = none }

unfoldable pub end_run : ℕ → RunStatus → Option String → Run → Run
end_run now status result t = record (unleased t) {
  status = status;
  result = result;
  finished_at = some now;
}

unfoldable pub complete_runtime :
    (String → Bool) → ℕ → String → String → RunTable → RunTable × RunAnswer (Unit {0})
unfolding update_runs end_run
complete_runtime valid now id result rows = if not (valid result) then (rows, err bad_input) else (
  update_runs (active id) (end_run now RunStatus.done (some result)) rows,
  affected (active id) rows,
)

-- A failure that may be retried writes the JSON null, which is what json.Marshal makes of nil.
unfoldable pub fail_again : Run → Run
fail_again t = record (unleased t) {
  status = RunStatus.pending;
  result = some "null";
  finished_at = none;
  error_attempts = t.error_attempts + 1;
}

unfoldable pub fail_for_good : ℕ → String → Run → Run
fail_for_good now result t = record (unleased t) {
  status = RunStatus.failed;
  result = some result;
  finished_at = some now;
  error_attempts = t.error_attempts + 1;
}

-- `result` is the JSON of the error and its reason.
unfoldable pub fail_runtime :
    ℕ → String → String → Bool → RunTable → RunTable × RunAnswer (Unit {0})
unfolding update_runs fail_again fail_for_good
fail_runtime now id result terminal rows = (
  update_runs (active id) (if terminal then fail_for_good now result else fail_again) rows,
  affected (active id) rows,
)
