-- ===== src/Retry/Loop.antt =====
-- What DoValue does over every sequence of answers.
use knowlega.Base.{
  ℕ, zero, suc, ◌+◌, ◌≤◌, ◌<◌, ◌≡◌, refl, subst, ◌⊎◌, inl, inr, Bool, true, false, not, ◌||◌, arith,
  ltb, length, String, Bool-cases, Option, none, some, sym, ◌∙◌, ap,
}
use native.Mathlib.Decide.{dec_lt}
use knowlega.Base.Int.{ℤ, pos, negsuc, ltz}
use knowlega.Retry.{
  Options, Answer, value, failure, done, failed, no_call, Trace, rounds, last_outcome,
  attempts_from, do_value,
}

-- n + 1.
abbrev pub next_int : ℤ → ℤ
next_int (pos n) = pos (suc n)
next_int (negsuc zero) = pos 0
next_int (negsuc (suc n)) = negsuc n

ℤ-cases : (z : ℤ) → ((n : ℕ) × (z ≡ pos n)) ⊎ ((n : ℕ) × (z ≡ negsuc n))
ℤ-cases (pos n) = inl (n, refl)
ℤ-cases (negsuc n) = inr (n, refl)

abbrev pub is_retryable : {T : Type 0} → Answer T → Bool
is_retryable (value v) = false
is_retryable (failure r e) = r

Answer-cases :
    {T : Type 0} (a : Answer T)
    → ((v : T) × (a ≡ value v)) ⊎ ((r : Bool) × (e : String) × (a ≡ failure r e))
Answer-cases (value v) = inl (v, refl)
Answer-cases (failure r e) = inr (r, e, refl)

module _ {T : Type 0} (opts : Options) (fn : ℕ → Answer T) (cancelled interrupted : ℕ → Bool) where
  attempts : ℕ → ℕ → Option String → Trace T
  attempts = attempts_from opts fn cancelled interrupted

  attempts-bounds :
      (left attempt : ℕ) (last : Option String)
      → ((attempts left attempt last).calls ≤ left)
        × (length (attempts left attempt last).told ≤ (attempts left attempt last).calls)
  unfolding attempts attempts_from last_outcome
  attempts-bounds zero attempt last = omega arith
  attempts-bounds (suc left) attempt last = elim (Answer-cases (fn attempt)) [
    | inl (v, e) ↦ ground (arith, e)
    | inr (r, w, e) ↦ ground (arith, e, attempts-bounds left (suc attempt) (some w))
  ]

  -- attempt > opts.Retries, where that is not negative.
  budget : (n a : ℕ) → opts.retries ≡ pos n → ltz opts.retries (pos a) ≡ ltb n a
  budget n a sign = rw sign refl

  attempts-success :
      (n left attempt k : ℕ) (last : Option String) (v : T)
      → opts.retries ≡ pos n
      → attempt ≤ k
      → k < attempt + left
      → k ≤ suc n
      → fn k ≡ value v
      → ((j : ℕ) → attempt ≤ j → j < k → is_retryable (fn j) ≡ true)
      → ((j : ℕ) → attempt ≤ j → j < k → (cancelled j ≡ false) × (interrupted j ≡ false))
      → ((attempts left attempt last).outcome ≡ done v)
        × ((attempts left attempt last).calls + attempt ≡ suc k)
  unfolding attempts attempts_from last_outcome
  attempts-success n zero attempt k last v sign lo hi cap found retry quiet = absurd (omega arith)
  attempts-success n (suc left) attempt k last v sign lo hi cap found retry quiet =
      elim (dec_lt attempt k) [
        | yes before ↦ elim (Answer-cases (fn attempt)) [
          | inl (w, e) ↦ absurd (ground (arith, e, retry attempt (omega arith) before))
          | inr (r, w, e) ↦ ground (
            arith,
            e,
            retry attempt (omega arith) before,
            quiet attempt (omega arith) before,
            budget n attempt sign,
            attempts-success n left (suc attempt) k (some w) v sign before (omega arith) cap found
                (λ j p q. retry j (omega arith) q) (λ j p q. quiet j (omega arith) q),
          )
        ]
        | no here ↦
            let same : attempt ≡ k = omega arith in
            let now : fn attempt ≡ value v = rw same found in ground (arith, now)
      ]

  -- A call that gives up: the last one, or one whose failure may not be retried, or one after which
  -- the context has ended.
  abbrev pub GivesUp : ℕ → String → Type 0
  GivesUp k reason =
      (r : Bool) × (fn k ≡ failure r reason)
      × ((r ≡ false) ⊎ (pos k ≡ next_int opts.retries) ⊎ (cancelled k ≡ true))

  at_budget : (n k : ℕ) → opts.retries ≡ pos n → k ≡ suc n → pos k ≡ next_int opts.retries
  at_budget n k sign e = rw (sign, e) refl

  attempts-failed :
      (n left attempt : ℕ) (last : Option String) (reason : String)
      → opts.retries ≡ pos n
      → left + attempt ≡ suc n
      → (attempts (suc left) attempt last).outcome ≡ failed reason
      → (k : ℕ) × (suc k ≡ attempt + (attempts (suc left) attempt last).calls) × GivesUp k reason
  unfolding attempts attempts_from last_outcome
  attempts-failed n zero attempt last reason sign sum out = elim (Answer-cases (fn attempt)) [
    | inl (v, e) ↦ absurd (ground (arith, e, out))
    | inr (r, w, e) ↦ (
      attempt,
      ground (arith, e, sum),
      (
        r,
        ground (arith, e, out, sum, budget n attempt sign),
        inr (inl (at_budget n attempt sign (omega arith))),
      ),
    )
  ]
  attempts-failed n (suc left) attempt last reason sign sum out = elim (Answer-cases (fn attempt)) [
    | inl (v, e) ↦ absurd (ground (arith, e, out))
    | inr (r, w, e) ↦
        elim (Bool-cases (not r || ltz opts.retries (pos attempt) || cancelled attempt)) [
          | inl stop ↦
              let within : ltz opts.retries (pos attempt) ≡ false =
                budget n attempt sign ∙ ground (arith, sum) in
              (
                attempt,
                ground (arith, e, stop),
                (r, ground (arith, e, stop, out), ground (arith, stop, within)),
              )
          | inr go ↦ elim (Bool-cases (interrupted attempt)) [
            | inl cut ↦ absurd (ground (arith, e, go, cut, out))
            | inr on ↦
                let (k, at, up) =
                  attempts-failed n left (suc attempt) (some w) reason sign (omega arith)
                    (ground (arith, e, go, on, out)) in
                (k, ground (arith, e, go, on, at), up)
          ]
        ]
  ]

  -- If call k, of the budgeted ones, is the first that succeeds, all calls before it having failed in
  -- a way that may be retried and the context being alive, then DoValue returns its value after k
  -- calls. There are Retries + 1 calls in the budget, and none where Retries is negative.
  pub do_value-success :
      (k : ℕ) (v : T)
      → 0 < k
      → k ≤ rounds opts.retries
      → fn k ≡ value v
      → ((j : ℕ) → 0 < j → j < k → is_retryable (fn j) ≡ true)
      → ((j : ℕ) → 0 < j → j < k → (cancelled j ≡ false) × (interrupted j ≡ false))
      → ((do_value opts fn cancelled interrupted).outcome ≡ done v)
        × ((do_value opts fn cancelled interrupted).calls ≡ k)
  unfolding rounds
  do_value-success k v lo hi found retry quiet = elim (ℤ-cases opts.retries) [
    | inr (n, e) ↦
        let none_left : rounds opts.retries ≡ 0 = rw e refl in absurd (omega (arith, hi, none_left))
    | inl (n, e) ↦
        let all : rounds opts.retries ≡ suc n = rw e refl in
        let (out, calls) =
          attempts-success n (suc n) 1 k none v e lo (omega (arith, hi, all))
            (omega (arith, hi, all)) found retry quiet in
        unfold do_value attempts in rw all (out, omega (arith, calls))
  ]

  -- DoValue calls the function at most once more than the retries, and never where they are
  -- negative, and announces no more retries than it makes calls.
  pub do_value-bounds :
      ((do_value opts fn cancelled interrupted).calls ≤ rounds opts.retries)
      × (length (do_value opts fn cancelled interrupted).told
          ≤ (do_value opts fn cancelled interrupted).calls)
  unfolding do_value attempts
  do_value-bounds = attempts-bounds (rounds opts.retries) 1 none

  -- If DoValue returns an error of the function, it is that of its last call, and that call's
  -- failure may not be retried, or it is call Retries + 1, or the context had ended.
  pub do_value-failed :
      (reason : String)
      → (do_value opts fn cancelled interrupted).outcome ≡ failed reason
      → GivesUp (do_value opts fn cancelled interrupted).calls reason
  do_value-failed reason out = elim (ℤ-cases opts.retries) [
    | inr (n, e) ↦ absurd (ground (arith, nothing n e, out))
    | inl (n, e) ↦
        let same : do_value opts fn cancelled interrupted ≡ attempts (suc n) 1 none =
          unfold do_value attempts rounds in rw e refl in
        subst (λ t. GivesUp t.calls reason) (sym same)
          (last_call n e (sym (ap (λ (t : Trace T). t.outcome) same) ∙ out))
  ]
    where
      nothing :
          (n : ℕ)
          → opts.retries ≡ negsuc n
          → (do_value opts fn cancelled interrupted).outcome ≡ no_call
      nothing n e = unfold do_value attempts_from rounds last_outcome in rw e refl

      last_call :
          (n : ℕ)
          → opts.retries ≡ pos n
          → (attempts (suc n) 1 none).outcome ≡ failed reason
          → GivesUp (attempts (suc n) 1 none).calls reason
      last_call n e h =
          let (k, at, up) = attempts-failed n n 1 none reason e (omega arith) h in
          let same : k ≡ (attempts (suc n) 1 none).calls = omega (arith, at) in
          subst (λ c. GivesUp c reason) same up
