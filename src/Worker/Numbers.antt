-- ===== src/Worker/Numbers.antt =====
-- The worker's configuration, its backoff, and the numbers of its events.
use Prim.Native.Nat.{min}
use native.Mathlib.Nat.{pow-le-pow_right, one-le-pow}
use knowlega.Base.{ℕ, zero, suc, ◌+◌, ◌*◌, ◌^◌, ◌≤◌, ◌<◌, arith}
use knowlega.Worker.{event_attempt_base, claim_backoff}

le-mul-pow : (n d : ℕ) → d ≤ d * 2 ^ n
le-mul-pow n d = let p : 1 ≤ 2 ^ n = one-le-pow n 2 (omega arith) in grind (arith, p)

mul-pow_mono : (d m n : ℕ) → m ≤ n → d * 2 ^ m ≤ d * 2 ^ n
mul-pow_mono d m n h = let p : 2 ^ m ≤ 2 ^ n = pow-le-pow_right (omega arith) h in grind (arith, p)

-- The wait after a failed claim is between the base and the limit, and does not get shorter from one
-- failure to the next.
pub claim_backoff_bounds :
    (base maximum failures : ℕ)
    → base ≤ maximum
    → (base ≤ claim_backoff base maximum failures)
      × (claim_backoff base maximum failures ≤ maximum)
      × (claim_backoff base maximum failures ≤ claim_backoff base maximum (suc failures))
unfolding claim_backoff
claim_backoff_bounds base maximum zero h = ground (arith, le-mul-pow (min 0 8) base)
claim_backoff_bounds base maximum (suc f) h =
    ground
      (arith, le-mul-pow (min f 8) base, mul-pow_mono base (min f 8) (min (suc f) 8) (omega arith))

-- Events of different attempts have different numbers, in the order of the attempts, as long as an
-- attempt has at most 2 ^ 32 of them.
pub event_attempts_apart :
    (a b i j : ℕ)
    → 0 < a
    → a < b
    → i ≤ 2 ^ 32
    → 0 < j
    → event_attempt_base a + i < event_attempt_base b + j
unfolding event_attempt_base
event_attempts_apart a b i j pa lt hi pj = ground arith
