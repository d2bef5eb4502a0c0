-- ===== src/Retry.antt =====
-- internal/agent/knowlega/llmretry/llmretry.go: a call that is tried again with doubling delays.
-- A time.Duration is an int64 of nanoseconds, kept as its bit pattern below 2 ^ 64, so that the
-- doubling wraps around as the code's does.
pub mod Delay
pub mod Loop
mod Tests
use knowlega.Base.{
  ℕ, zero, suc, ◌+◌, ◌-◌, ◌*◌, ◌%◌, ◌^◌, String, Bool, true, false, not, ◌&&◌, ◌||◌, Option, none,
  some, List, [], ◌∷◌, ltb, leb, ◌=ℕ◌, if◌then◌else◌,
}
use knowlega.Base.Int.{ℤ, pos, negsuc, ltz}

abbrev pub half_range : ℕ
half_range = 2 ^ 63

abbrev pub full_range : ℕ
full_range = 2 ^ 64

-- A pattern from 2 ^ 63 on is a negative number.
abbrev pub is_positive : ℕ → Bool
is_positive d = ltb 0 d && ltb d half_range

-- `d > e` for two patterns: flipping the sign bit makes the order unsigned.
abbrev pub flip_sign : ℕ → ℕ
flip_sign d = (d + half_range) % full_range

abbrev pub greater : ℕ → ℕ → Bool
greater d e = ltb (flip_sign e) (flip_sign d)

abbrev pub base_default : ℕ
base_default = 800000000

abbrev pub max_default : ℕ
max_default = 5000000000

-- `max_elapsed` bounds the context, which is told by `cancelled` below.
pub record Options : Type 0 where
  pub retries : ℤ
  pub base_delay : ℕ
  pub max_delay : ℕ

pub defaults : Options
defaults = record { retries = pos 2; base_delay = base_default; max_delay = max_default }

unfoldable pub or_else : ℕ → ℕ → ℕ
or_else d e = if is_positive d then d else e

abbrev pub not_negative : ℤ → ℤ
not_negative (pos n) = pos n
not_negative (negsuc n) = pos 0

unfoldable pub normalize : Options → Options
unfolding or_else
normalize opts =
    let base = or_else opts.base_delay base_default in
    let top = or_else opts.max_delay max_default in
    record opts {
      retries = not_negative opts.retries;
      base_delay = base;
      max_delay = if greater base top then base else top;
    }

-- for i := 1; i < attempt; i++ { delay *= 2 }
unfoldable pub doubled : ℕ → ℕ → ℕ
doubled zero delay = delay
doubled (suc n) delay = doubled n (delay * 2 % full_range)

unfoldable pub retry_delay : Options → ℕ → ℕ
unfolding doubled or_else
retry_delay opts attempt =
    let delay = doubled (attempt - 1) (or_else opts.base_delay base_default) in
    let top = or_else opts.max_delay max_default in if greater delay top then top else delay

-- What one call of `fn` answers.
pub data Answer (T : Type 0) : Type 0 where
  value : T → Answer T
  failure : Bool → String → Answer T

-- How the call ends: with a value, with the error of `fn`, with the context's error, or, where no
-- attempt is made, with the zero value and no error.
pub data Outcome (T : Type 0) : Type 0 where
  done : T → Outcome T
  failed : String → Outcome T
  cut_off : Outcome T
  no_call : Outcome T

pub record RetryInfo : Type 0 where
  pub attempt : ℕ
  pub retries : ℤ
  pub delay : ℕ
  pub reason : String

-- What the loop did: how it ended, the attempts that called `fn`, and what `onRetry` was told.
pub record Trace (T : Type 0) : Type 0 where
  pub outcome : Outcome T
  pub calls : ℕ
  pub told : List RetryInfo

abbrev pub noted : {T : Type 0} → RetryInfo → Trace T → Trace T
noted info t = record t { calls = suc t.calls; told = info ∷ t.told }

pub retryable_status : ℕ → Bool
retryable_status status =
    status =ℕ 429 || status =ℕ 500 || status =ℕ 502 || status =ℕ 503 || status =ℕ 504

-- The rounds of `for attempt := 1; attempt <= opts.Retries+1; attempt++`.
unfoldable pub rounds : ℤ → ℕ
rounds (pos n) = suc n
rounds (negsuc n) = 0

-- `zero, lastErr`.
unfoldable pub last_outcome : {T : Type 0} → Option String → Outcome T
last_outcome none = no_call
last_outcome (some reason) = failed reason

module _ {T : Type 0} (opts : Options) (fn : ℕ → Answer T) (cancelled interrupted : ℕ → Bool) where
  -- The rounds that are left, the attempt, and `lastErr`. `cancelled n` is ctx.Err() != nil after
  -- attempt n, `interrupted n` that the context ends while the loop waits after attempt n.
  unfoldable pub attempts_from : ℕ → ℕ → Option String → Trace T
  unfolding last_outcome
  attempts_from zero attempt last = record { outcome = last_outcome last; calls = 0; told = [] }
  attempts_from (suc left) attempt last = elim (fn attempt) [
    | value v ↦ record { outcome = done v; calls = 1; told = [] }
    | failure retryable reason ↦
        let rest = attempts_from left (suc attempt) (some reason) in
        let info : RetryInfo = record {
          attempt = attempt;
          retries = opts.retries;
          delay = retry_delay opts attempt;
          reason = reason;
        } in
        if not retryable || ltz opts.retries (pos attempt) || cancelled attempt
        then record { outcome = failed reason; calls = 1; told = [] }
        else if interrupted attempt
        then noted info (record { outcome = cut_off; calls = 0; told = [] })
        else noted info rest
  ]

  unfoldable pub do_value : Trace T
  unfolding attempts_from rounds
  do_value = attempts_from (rounds opts.retries) 1 none
