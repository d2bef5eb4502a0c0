-- ===== src/Retry/Delay.antt =====
-- The delay before a retry.
use Prim.Native.Nat.{min}
use native.Mathlib.Nat.{pow-suc, pow-zero, mul_assoc, mul_comm, one-le-pow}
use knowlega.Base.{ℕ, zero, suc, ◌-◌, ◌*◌, ◌%◌, ◌^◌, ◌≤◌, ◌<◌, ◌≡◌, ◌∙◌, arith, ltb, if◌then◌else◌}
use knowlega.Retry.{
  Options, half_range, full_range, greater, or_else, doubled, retry_delay, base_default,
  max_default,
}

greater-ltb : (d e : ℕ) → d < half_range → e < half_range → greater d e ≡ ltb e d
greater-ltb d e h k = ground arith

twice-pow : (n d : ℕ) → d * 2 * 2 ^ n ≡ d * 2 ^ suc n
twice-pow n d = rw (pow-suc, mul_assoc d 2 (2 ^ n), mul_comm 2 (2 ^ n))

le-mul-pow : (n d : ℕ) → d ≤ d * 2 ^ n
le-mul-pow n d = let p : 1 ≤ 2 ^ n = one-le-pow n 2 (omega arith) in grind (arith, p)

-- Until it passes the range of int64 the doubling is exact.
doubled-pow : (n d : ℕ) → d * 2 ^ n < half_range → doubled n d ≡ d * 2 ^ n
unfolding doubled
doubled-pow zero d h = rw pow-zero (omega arith)
doubled-pow (suc n) d h =
    let small : d * 2 * 2 ^ n < half_range = rw (twice-pow n d) h in
    let exact : d * 2 % full_range ≡ d * 2 = omega (arith, small, le-mul-pow n (d * 2)) in
    rw exact (doubled-pow n (d * 2) small ∙ twice-pow n d)

or_else-positive : (d e : ℕ) → 0 < d → d < half_range → or_else d e ≡ d
unfolding or_else
or_else-positive d e h k = ground arith

capped : (d top : ℕ) → (if ltb top d then top else d) ≡ min d top
capped d top = ground arith

-- For positive delays, as long as base · 2 ^ n stays below 2 ^ 63 the delay after attempt n + 1 is
-- base · 2 ^ n or the maximum, whichever is less.
pub retry_delay-min :
    (opts : Options) (n : ℕ)
    → 0 < opts.base_delay
    → 0 < opts.max_delay
    → opts.max_delay < half_range
    → opts.base_delay * 2 ^ n < half_range
    → retry_delay opts (suc n) ≡ min (opts.base_delay * 2 ^ n) opts.max_delay
retry_delay-min opts n b m top small =
    let base : or_else opts.base_delay base_default ≡ opts.base_delay =
      or_else-positive _ _ b (omega (arith, small, le-mul-pow n opts.base_delay)) in
    let last : suc n - 1 ≡ n = omega arith in
    unfold retry_delay in
    rw
      (
        base,
        or_else-positive opts.max_delay max_default m top,
        last,
        doubled-pow n opts.base_delay small,
        greater-ltb _ _ small top,
      )
      (capped (opts.base_delay * 2 ^ n) opts.max_delay)
