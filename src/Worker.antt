-- ===== src/Worker.antt =====
-- internal/qm/worker/pool.go: a worker claims a task, keeps its lease while the handler runs, and
-- then makes at most one call that gives the lease up. Goroutines are sequences of their events: the
-- heartbeats that are answered before the handler returns, and the answers to successive claims.
pub mod Settle
pub mod Numbers
mod Tests
use Prim.Native.Nat.{min}
use knowlega.Base.{
  ℕ, zero, suc, ◌+◌, ◌-◌, ◌*◌, ◌^◌, String, Bool, true, false, not, ◌&&◌, ◌||◌, Option, none, some,
  List, [], ◌∷◌, ltb, leb, ◌=ℕ◌, ◌==◌, if◌then◌else◌, length,
}

-- Durations in nanoseconds; 0 stands for what is not positive.
pub record PoolConfig : Type 0 where
  pub name : String
  pub kinds : List String
  pub concurrency : ℕ
  pub lease_ttl : ℕ
  pub heartbeat_interval : ℕ
  pub poll_interval : ℕ
  pub max_claim_backoff : ℕ

pub data ConfigError : Type 0 where
  no_store_or_handler no_name_or_kinds bad_concurrency bad_lease_ttl : ConfigError
  bad_heartbeat bad_poll_interval : ConfigError

pub data Made : Type 0 where
  pool : PoolConfig → Made
  refused : ConfigError → Made

-- `store` and `handler` say whether the two are given.
unfoldable pub new_pool : Bool → Bool → PoolConfig → Made
new_pool store handler config =
    if not store || not handler
    then refused no_store_or_handler
    else if config.name == "" || length config.kinds =ℕ 0
    then refused no_name_or_kinds
    else if config.concurrency =ℕ 0
    then refused bad_concurrency
    else if config.lease_ttl =ℕ 0
    then refused bad_lease_ttl
    else if config.heartbeat_interval =ℕ 0 || leb config.lease_ttl config.heartbeat_interval
    then refused bad_heartbeat
    else if config.poll_interval =ℕ 0
    then refused bad_poll_interval
    else if ltb config.max_claim_backoff config.poll_interval
    then pool (record config { max_claim_backoff = 5000000000 })
    else pool config

-- One answer of the store's Heartbeat.
pub record Beat : Type 0 where
  pub accepted : Bool
  pub requested : Bool
  pub error : Bool

-- What the heartbeat goroutine has found when the handler returns.
pub data Watch : Type 0 where
  holding lease_lost cancel_requested : Watch

-- A beat that is not an error that is passed over.
abbrev pub heed : Beat → Watch → Watch
heed b rest = if not b.accepted then lease_lost else if b.requested then cancel_requested else rest

-- The loop over the ticks, with the count of failures. The third failure in a row is heeded.
unfoldable pub watch : ℕ → List Beat → Watch
watch failures [] = holding
watch failures (b ∷ beats) =
    let failures' = if b.error then suc failures else 0 in
    let rest = watch failures' beats in if b.error && ltb failures' 3 then rest else heed b rest

-- What the handler returns: a result, or an error with what the `TaskError` in it says, if any.
pub data Handled : Type 0 where
  result : String → Handled
  error : String → Option (Bool × ℕ) → Handled

-- The call of the store by which `process` ends.
pub data Ending : Type 0 where
  nothing acknowledge release : Ending
  fail : String → Bool → ℕ → Ending
  complete : String → Ending

abbrev pub settle_error : String → Option (Bool × ℕ) → Ending
settle_error reason none = fail reason true 0
settle_error reason (some (retry, delay)) = fail reason retry delay

abbrev pub settle_result : Handled → Ending
settle_result (result r) = complete (if r == "" then "{}" else r)
settle_result (error reason task) = settle_error reason task

-- `stopped` is parent.Err() != nil after the handler has returned.
unfoldable pub process : List Beat → Bool → Handled → Ending
unfolding watch
process beats stopped handled = elim (watch 0 beats) [
  | lease_lost ↦ nothing
  | cancel_requested ↦ acknowledge
  | holding ↦ if stopped then release else settle_result handled
]

-- int64(attempt-1) << 32
unfoldable pub event_attempt_base : ℕ → ℕ
event_attempt_base attempt = if leb attempt 1 then 0 else (attempt - 1) * 2 ^ 32

-- eventWriter.Append: the sequence goes up by one whatever the store answers.
pub data Appended : Type 0 where
  appended lease_gone store_error : Appended

unfoldable pub append_event : ℕ → Bool → Bool → ℕ × Appended
append_event sequence accepted err =
    (suc sequence, if err then store_error else if not accepted then lease_gone else appended)

-- time.Duration(float64(base) * math.Pow(2, …)): exact below 2 ^ 53 nanoseconds, some 104 days.
unfoldable pub claim_backoff : ℕ → ℕ → ℕ → ℕ
claim_backoff base maximum zero = base
claim_backoff base maximum (suc failures) =
    let delay = base * 2 ^ min failures 8 in if ltb maximum delay then maximum else delay

-- One round of the loop of `runWorker`: the answer to a claim, and what the worker does next.
pub data Claimed : Type 0 where
  claim_error claim_none claim_task : Claimed

pub data Next : Type 0 where
  wait : ℕ → Next
  process_task : Next

-- The count of failures after the round, and the next action.
unfoldable pub worker_round : PoolConfig → ℕ → Claimed → ℕ × Next
unfolding claim_backoff
worker_round config failures claim_error = (
  suc failures,
  wait (claim_backoff config.poll_interval config.max_claim_backoff (suc failures)),
)
worker_round config failures claim_none = (0, wait config.poll_interval)
worker_round config failures claim_task = (0, process_task)

unfoldable pub worker_rounds : PoolConfig → ℕ → List Claimed → List Next
unfolding worker_round
worker_rounds config failures [] = []
worker_rounds config failures (c ∷ claims) =
    let (failures', next) = worker_round config failures c in
    next ∷ worker_rounds config failures' claims
