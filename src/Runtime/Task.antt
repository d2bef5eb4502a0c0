-- ===== src/Runtime/Task.antt =====
-- The row of `runtime_tasks` and the inputs of the repository's methods. `*string` and `*int64` are
-- `Option`; a time is what UnixMilli returns, which is not negative.
use knowlega.Base.{ℕ, String, Bool, true, false, Option, none, some, ◌==◌}
use knowlega.Base.Int.{ℤ}

pub data Status : Type 0 where
  pending running succeeded failed cancelled dead : Status

abbrev pub is_pending : Status → Bool
is_pending Status.pending = true
is_pending _ = false

abbrev pub is_running : Status → Bool
is_running Status.running = true
is_running _ = false

abbrev pub is_terminal : Status → Bool
is_terminal Status.pending = false
is_terminal Status.running = false
is_terminal _ = true

pub record RuntimeTask : Type 0 where
  pub id : String
  pub kind : String
  pub payload_version : ℕ
  pub payload : String
  pub scope_id : Option String
  pub actor_id : Option String
  pub idempotency_key : Option String
  pub serial_key : Option String
  pub status : Status
  pub priority : ℤ
  pub available_at : ℕ
  pub attempts : ℕ
  pub max_attempts : ℕ
  pub lease_token : Option String
  pub lease_owner : Option String
  pub lease_expires_at : Option ℕ
  pub cancel_requested : Bool
  pub result : Option String
  pub last_error : Option String
  pub created_at : ℕ
  pub updated_at : ℕ
  pub started_at : Option ℕ
  pub finished_at : Option ℕ

-- A number that is 0 stands for every number that is not positive, as the code treats them alike.
-- An `available_at` of `none` is the zero time.
pub record EnqueueInput : Type 0 where
  pub id : String
  pub kind : String
  pub payload_version : ℕ
  pub payload : String
  pub scope_id : String
  pub actor_id : String
  pub idempotency_key : String
  pub serial_key : String
  pub priority : ℤ
  pub available_at : Option ℕ
  pub max_attempts : ℕ

pub record ClaimedTask : Type 0 where
  pub task : RuntimeTask
  pub lease_token : String
  pub lease_owner : String

-- A value equal to a nullable column, as `column = $1`: never for NULL.
abbrev pub holds : String → Option String → Bool
holds s none = false
holds s (some t) = t == s

-- NULLIF($1,'').
abbrev pub null_if_empty : String → Option String
null_if_empty s = elim (s == "") [ true ↦ none | false ↦ some s ]
