-- ===== src/Retry/Tests.antt =====
-- Calls that are tried again.
use knowlega.Base.{
  ℕ, ◌*◌, ◌^◌, ◌<◌, String, ◌≡◌, refl, Bool, true, false, arith, ◌=ℕ◌, if◌then◌else◌,
}
use Prim.Native.Nat.{min}
use knowlega.Base.Int.{pos, negsuc}
use knowlega.Retry.{
  Options, Answer, value, failure, done, retry_delay, do_value, normalize, rounds, no_call,
}
use knowlega.Retry.Delay.{retry_delay-min}
use knowlega.Retry.Loop.{is_retryable, GivesUp, do_value-success, do_value-failed}

abbrev opts : Options
opts = record { retries = pos 2; base_delay = 100; max_delay = 300 }

-- The second call succeeds.
abbrev second : ℕ → Answer String
second n = if n =ℕ 2 then value "v" else failure true "busy"

abbrev never : ℕ → Bool
never n = false

abbrev always_busy : ℕ → Answer String
always_busy n = failure true "busy"

capped_delay : retry_delay opts 3 ≡ 300
unfolding retry_delay
capped_delay = refl

normal : normalize opts ≡ opts
unfolding normalize
normal = refl

-- With a negative number of retries nothing is called, and there is no error.
negative_retries :
    (do_value (record opts { retries = negsuc 0 }) second never never).outcome ≡ no_call
unfolding do_value
negative_retries = refl

retry_delay-min_example : retry_delay opts 2 ≡ min (100 * 2 ^ 1) 300
retry_delay-min_example =
    retry_delay-min opts 1 (omega arith) (omega arith) (omega arith) (omega arith)

do_value-success_example :
    ((do_value opts second never never).outcome ≡ done "v")
    × ((do_value opts second never never).calls ≡ 2)
do_value-success_example =
    do_value-success opts second never never 2 "v" (omega arith) (unfold rounds in omega arith) refl
      before quiet
  where
    before : (j : ℕ) → 0 < j → j < 2 → is_retryable (second j) ≡ true
    before j p q = ground arith

    quiet : (j : ℕ) → 0 < j → j < 2 → (never j ≡ false) × (never j ≡ false)
    quiet j p q = (refl, refl)

do_value-failed_example :
    GivesUp opts always_busy never never (do_value opts always_busy never never).calls "busy"
do_value-failed_example =
    do_value-failed opts always_busy never never "busy" (unfold do_value in refl)
