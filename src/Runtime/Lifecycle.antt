-- ===== src/Runtime/Lifecycle.antt =====
-- What the queue promises of a task, without leases, clocks and columns: a task waits, is held, or is
-- over, and each kind of call moves it between these in few ways.
use knowlega.Base.{
  ℕ, suc, String, ◌≤◌, ◌<◌, ◌≡◌, ◌⊎◌, refl, inl, Bool, true, false, Option, none, some, List, [],
  ◌∷◌,
}
use knowlega.Runtime.Task.{
  Status, pending, running, succeeded, failed, cancelled, dead, RuntimeTask,
}
use knowlega.Runtime.Store.{Table}
use knowlega.Runtime.Steps.{
  Call, enqueues, claims, heartbeats, completes, releases, acknowledges, fails, cancels, reaps,
  step,
}

-- Attempts made, attempts allowed, and whether the task is to be cancelled.
pub data Life : Type 0 where
  waiting : ℕ → ℕ → Bool → Life
  held : ℕ → ℕ → Bool → Life
  over : Status → Life

-- The kinds of calls; a failure may be retried or not.
pub data Act : Type 0 where
  adding claiming keeping completing releasing acknowledging : Act
  failing : Bool → Act
  cancelling reaping : Act

pub data Move : Act → Life → Life → Type 0 where
  taken : {a m : ℕ} {c : Bool} → Move claiming (waiting a m c) (held (suc a) m c)
  succeeds : {a m : ℕ} {c : Bool} → Move completing (held a m c) (over succeeded)
  given_back : {a m : ℕ} → Move releasing (held a m false) (waiting a m false)
  gives_up : {a m : ℕ} → Move acknowledging (held a m true) (over cancelled)
  -- A failure that may be retried, while attempts are left and when none is.
  tried_again : {a m : ℕ} {c : Bool} → a < m → Move (failing true) (held a m c) (waiting a m c)
  exhausted : {a m : ℕ} {c : Bool} → m ≤ a → Move (failing true) (held a m c) (over dead)
  fails_for_good : {a m : ℕ} {c : Bool} → Move (failing false) (held a m c) (over failed)
  withdrawn : {a m : ℕ} {c : Bool} → Move cancelling (waiting a m c) (over cancelled)
  asked : {a m : ℕ} {c : Bool} → Move cancelling (held a m c) (held a m true)
  -- A lease that has expired.
  taken_back : {a m : ℕ} → a < m → Move reaping (held a m false) (waiting a m false)
  died : {a m : ℕ} → m ≤ a → Move reaping (held a m false) (over dead)
  dropped : {a m : ℕ} → Move reaping (held a m true) (over cancelled)

-- The abstract state of a row.
abbrev pub life_of : Status → ℕ → ℕ → Bool → Life
life_of pending a m c = waiting a m c
life_of running a m c = held a m c
life_of succeeded a m c = over succeeded
life_of failed a m c = over failed
life_of cancelled a m c = over cancelled
life_of dead a m c = over dead

abbrev pub life : RuntimeTask → Life
life t = life_of t.status t.attempts t.max_attempts t.cancel_requested

-- A call for one id moves the task of that id only.
abbrev pub Named : Option String → RuntimeTask → Type 0
Named none t = Unit
Named (some id) t = t.id ≡ id

-- A row stays as it is or makes one move.
abbrev pub Moves : Act → Option String → RuntimeTask → RuntimeTask → Type 0
Moves act name t u = (life u ≡ life t) ⊎ Named name t × Move act (life t) (life u)

-- Only an enqueue adds a row: a task that waits, with no attempt made and one at least allowed.
abbrev pub Added : Act → RuntimeTask → Type 0
Added adding t = (m : ℕ) × (0 < m) × (life t ≡ waiting 0 m false)
Added _ t = ⊥

-- Row by row; behind the old rows there is at most a new one.
abbrev pub Evolves : Act → Option String → Table → Table → Type 0
Evolves act name [] [] = Unit
Evolves act name [] (u ∷ []) = Added act u
Evolves act name [] (u ∷ w ∷ rows) = ⊥
Evolves act name (t ∷ rows) [] = ⊥
Evolves act name (t ∷ rows) (u ∷ rows') = Moves act name t u × Evolves act name rows rows'

abbrev pub act_of : Call → Act
act_of (enqueues valid now uuid input) = adding
act_of (claims locked seen now token owner kinds ttl) = claiming
act_of (heartbeats now later id token ttl) = keeping
act_of (completes valid now id token result) = completing
act_of (releases now id token) = releasing
act_of (acknowledges now id token) = acknowledging
act_of (fails now later id token reason retry delay) = failing retry
act_of (cancels now id) = cancelling
act_of (reaps now) = reaping

abbrev pub id_of : Call → Option String
id_of (enqueues valid now uuid input) = none
id_of (claims locked seen now token owner kinds ttl) = none
id_of (heartbeats now later id token ttl) = some id
id_of (completes valid now id token result) = some id
id_of (releases now id token) = some id
id_of (acknowledges now id token) = some id
id_of (fails now later id token reason retry delay) = some id
id_of (cancels now id) = some id
id_of (reaps now) = none

-- Each call of a history evolves the table that the calls before it have left.
abbrev pub Simulated : List Call → Table → Type 0
Simulated [] rows = Unit
Simulated (c ∷ calls) rows =
    Evolves (act_of c) (id_of c) rows (step c rows) × Simulated calls (step c rows)

pub Evolves-refl : (act : Act) (name : Option String) (rows : Table) → Evolves act name rows rows
Evolves-refl act name [] = tt
Evolves-refl act name (t ∷ rows) = (inl refl, Evolves-refl act name rows)
