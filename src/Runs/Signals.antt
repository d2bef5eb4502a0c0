-- ===== src/Runs/Signals.antt =====
-- The signals to a run and what it has done, in tables of their own.
use knowlega.Base.{
  ℕ, suc, String, Bool, true, false, not, ◌&&◌, ◌||◌, Option, none, some, List, [], ◌∷◌, ◌++◌, map,
  ◌==◌, if◌then◌else◌, is_some, any, keep_if, ltb,
}
use knowlega.Runs.Run.{is_active, Run, RunTable, find_run}
use knowlega.Runs.Lease.{leased_to}

pub record RunSignal : Type 0 where
  pub id : ℕ
  pub run_id : String
  pub kind : String
  pub text : String
  pub payload : String
  pub created_at : ℕ
  pub consumed_at : Option ℕ

-- The rows, and the number that BIGSERIAL gives next.
pub record Signals : Type 0 where
  pub rows : List RunSignal
  pub next_id : ℕ

abbrev pub insert_signal : ℕ → String → String → String → String → Signals → Signals
insert_signal now run kind text payload s = record {
  rows =
      s.rows
      ++ record {
        id = s.next_id;
        run_id = run;
        kind = kind;
        text = text;
        payload = payload;
        created_at = now;
        consumed_at = none;
      }
        ∷ [];
  next_id = suc s.next_id;
}

-- The kind and the text of a payload; `none` is one that is no JSON object.
abbrev pub SignalBody : Type 0
SignalBody = Option (String × String)

abbrev pub is_signal_kind : String → Bool
is_signal_kind kind = kind == "abort" || kind == "steer"

unfoldable pub signal : ℕ → String → String → SignalBody → Signals → Signals × Bool
signal now run payload none s = (s, false)
signal now run payload (some (kind, text)) s =
    if run == "" || not (is_signal_kind kind)
    then (s, false)
    else (insert_signal now run kind text payload s, true)

pub data Accepted : Type 0 where
  refused not_found terminal accepted : Accepted

abbrev pub signal_found :
    ℕ → String → String → String → String → Option Run → Signals → Signals × Accepted
signal_found now run payload kind text none s = (s, not_found)
signal_found now run payload kind text (some t) s =
    if is_active t.status
    then (insert_signal now run kind text payload s, accepted)
    else (s, terminal)

-- The run's row is locked from the SELECT on.
unfoldable pub signal_if_active :
    ℕ → String → String → SignalBody → RunTable → Signals → Signals × Accepted
unfolding find_run
signal_if_active now run payload none rows s = (s, refused)
signal_if_active now run payload (some (kind, text)) rows s =
    if run == "" || not (is_signal_kind kind)
    then (s, refused)
    else signal_found now run payload kind text (find_run (λ t. t.id == run) rows) s

abbrev pub is_waiting : String → RunSignal → Bool
is_waiting run g = g.run_id == run && not (is_some g.consumed_at)

abbrev pub consume : ℕ → RunSignal → RunSignal
consume now g = record g { consumed_at = some now }

-- The rows are in the order of their ids, and so is the answer.
unfoldable pub take_pending_signals : ℕ → String → Signals → Signals × List RunSignal
take_pending_signals now run s = (
  record s { rows = map (λ g. if is_waiting run g then consume now g else g) s.rows },
  keep_if (is_waiting run) s.rows,
)

abbrev pub is_old : ℕ → RunSignal → Bool
is_old before g = elim g.consumed_at [ none ↦ false | some at ↦ ltb at before ]

unfoldable pub prune_signals : ℕ → Signals → Signals
prune_signals before s = record s { rows = keep_if (λ g. not (is_old before g)) s.rows }

pub record RunActivity : Type 0 where
  pub run_id : String
  pub sequence : ℕ
  pub parent_sequence : Option ℕ
  pub kind : String
  pub payload : String
  pub created_at : ℕ
  pub idempotency_key : Option String

abbrev pub has_event : String → String → RunActivity → Bool
has_event run key a = a.run_id == run && elim a.idempotency_key [ none ↦ false | some k ↦ k == key ]

-- `none` is an error of the arguments. An event under a key that is there is not written again.
unfoldable pub append_runner_event :
    (String → Bool)
    → ℕ
    → String
    → String
    → ℕ
    → String
    → String
    → RunTable
    → List RunActivity
    → List RunActivity × Option Bool
append_runner_event valid now run token sequence key payload rows log =
    let event : RunActivity = record {
      run_id = run;
      sequence = sequence;
      parent_sequence = none;
      kind = "runner_event";
      payload = payload;
      created_at = now;
      idempotency_key = some key;
    } in
    if key == "" || not (valid payload)
    then (log, none)
    else if not (any (leased_to run token) rows)
    then (log, some false)
    else (if any (has_event run key) log then (log, some true) else (log ++ event ∷ [], some true))

unfoldable pub append_activity :
    (String → Bool) → RunActivity → List RunActivity → List RunActivity × Bool
append_activity valid a log =
    if a.run_id == "" || a.kind == "" || not (valid a.payload)
    then (log, false)
    else (log ++ record a { idempotency_key = none } ∷ [], true)

unfoldable pub prune_activity : ℕ → List RunActivity → List RunActivity
prune_activity before log = keep_if (λ a. not (ltb a.created_at before)) log
