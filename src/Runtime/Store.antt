-- ===== src/Runtime/Store.antt =====
-- The statements of RuntimeTaskRepository over the table's rows. Each method returns the new table
-- and its result. A clock reading is an argument, in nanoseconds; the uuid that a method draws, and
-- what the runtime or PostgreSQL decide beside it, are arguments too. An error of the connection is
-- not modelled: the transaction then leaves the table as it was.
use Prim.Native.Char.{Char, code}
use knowlega.Base.{
  ℕ, zero, suc, ◌/◌, String, Bool, true, false, not, ◌&&◌, ◌||◌, Option, none, some, List, [], ◌∷◌,
  ◌++◌, map, ◌==◌, leb, ◌=ℕ◌, if◌then◌else◌, any,
}
use knowlega.Base.Text.{trim_space}
use knowlega.Runtime.Task.{pending, RuntimeTask, EnqueueInput, holds, null_if_empty}

pub data Error : Type 0 where
  bad_kind bad_payload duplicate_id conflict_without_key no_owner no_kinds bad_ttl bad_result :
      Error

pub data Result (A : Type 0) : Type 0 where
  ok : A → Result A
  err : Error → Result A

abbrev pub Table : Type 0
Table = List RuntimeTask

abbrev pub unix_milli : ℕ → ℕ
unix_milli t = t / 1000000

-- UPDATE runtime_tasks SET … WHERE …; and the number of rows that it affects.
unfoldable pub update_where : (RuntimeTask → Bool) → (RuntimeTask → RuntimeTask) → Table → Table
update_where p f rows = map (λ t. if p t then f t else t) rows

-- ^[a-z][a-z0-9_.-]{0,63}$
is_kind_head : Char → Bool
is_kind_head c = leb b'a' (code c) && leb (code c) b'z'

is_kind_char : Char → Bool
unfolding is_kind_head
is_kind_char c =
    let n = code c in
    is_kind_head c || (leb b'0' n && leb n b'9') || n =ℕ b'_' || n =ℕ b'.' || n =ℕ b'-'

all_kind_chars : ℕ → String → Bool
unfolding is_kind_char
all_kind_chars n String.[] = true
all_kind_chars zero (String.◌∷◌ c s) = false
all_kind_chars (suc n) (String.◌∷◌ c s) = is_kind_char c && all_kind_chars n s

unfoldable pub kind_matches : String → Bool
unfolding all_kind_chars is_kind_head
kind_matches String.[] = false
kind_matches (String.◌∷◌ c s) = is_kind_head c && all_kind_chars 63 s

-- The index on (kind, idempotency_key) where the key is not NULL.
abbrev pub same_request : String → String → RuntimeTask → Bool
same_request kind key t = t.kind == kind && holds key t.idempotency_key

unfoldable pub find_row : (RuntimeTask → Bool) → Table → Option RuntimeTask
find_row p [] = none
find_row p (t ∷ rows) = if p t then some t else find_row p rows

abbrev pub or_default : ℕ → ℕ → ℕ
or_default zero d = d
or_default (suc n) d = suc n

abbrev pub new_id : String → String → String
new_id given uuid = let id = trim_space given in if id == "" then uuid else id

-- The row that Enqueue inserts.
unfoldable pub new_row : ℕ → String → String → EnqueueInput → RuntimeTask
new_row now id kind input = record {
  id = id;
  kind = kind;
  payload_version = or_default input.payload_version 1;
  payload = input.payload;
  scope_id = null_if_empty input.scope_id;
  actor_id = null_if_empty input.actor_id;
  idempotency_key = null_if_empty input.idempotency_key;
  serial_key = null_if_empty input.serial_key;
  status = pending;
  priority = input.priority;
  available_at = unix_milli (elim input.available_at [ none ↦ now | some at ↦ at ]);
  attempts = 0;
  max_attempts = or_default input.max_attempts 3;
  lease_token = none;
  lease_owner = none;
  lease_expires_at = none;
  cancel_requested = false;
  result = none;
  last_error = none;
  created_at = unix_milli now;
  updated_at = unix_milli now;
  started_at = none;
  finished_at = none;
}

-- The row that the index finds for a request; NULL keys never conflict.
unfoldable pub existing : RuntimeTask → Table → Option RuntimeTask
unfolding find_row
existing t rows = elim t.idempotency_key [
  | none ↦ none
  | some key ↦ find_row (same_request t.kind key) rows
]

-- INSERT … ON CONFLICT(kind,idempotency_key) DO NOTHING RETURNING id, then the SELECT of the
-- existing id. A taken primary key is another conflict, and an error.
unfoldable pub insert_row : RuntimeTask → Table → Table × Result (String × Bool)
unfolding existing
insert_row t rows = elim (existing t rows) [
  | some u ↦ (rows, ok (u.id, true))
  | none ↦
      if any (λ u. u.id == t.id) rows
      then (rows, err duplicate_id)
      else (rows ++ t ∷ [], ok (t.id, false))
]

-- `valid_json` is json.Valid.
unfoldable pub enqueue :
    (String → Bool) → ℕ → String → EnqueueInput → Table → Table × Result (String × Bool)
unfolding insert_row
enqueue valid_json now uuid input rows =
    let kind = trim_space input.kind in
    if not (kind_matches kind)
    then (rows, err bad_kind)
    else if not (valid_json input.payload)
    then (rows, err bad_payload)
    else insert_row (new_row now (new_id input.id uuid) kind input) rows
