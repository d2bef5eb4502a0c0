-- ===== src/Runtime/Ready.antt =====
-- Which task Claim hands out, told without its query.
use knowlega.Base.{
  ℕ, ◌+◌, ◌≤◌, ◌<◌, String, ◌≡◌, ◌≢◌, refl, sym, ap, ◌∙◌, ◌⊎◌, inl, inr, Bool, true, false, ◌&&◌,
  Option, none, some, List, [], ◌∷◌, arith, ◌==◌, any, elem_iff, eq_iff, In, All, Bool-cases,
  Option-cases,
}
use mathlib.Core.Bool.{false≢true}
use knowlega.Base.Int.{ℤ, pos, negsuc, ltz}
use knowlega.Base.Text.{trim_space}
use knowlega.Runtime.Task.{
  RuntimeTask, ClaimedTask, Status, pending, running, succeeded, failed, cancelled, dead,
  is_pending, is_running, holds,
}
use knowlega.Runtime.Store.{Table, ok, unix_milli, update_where}
use knowlega.Runtime.Claim.{
  claim, claim_checked, claim_row, lease_to, is_candidate, serial_busy, first_candidate,
  comes_before, serial_violated,
}
use knowlega.Runtime.Rows.{InRows}
use knowlega.Runtime.Invariant.{first_candidate-in}
use knowlega.Runtime.Order.{first_candidate-none, first_candidate-least}

-- No running row of the snapshot has the serial key of the task.
abbrev pub SerialFree : Table → RuntimeTask → Type 0
SerialFree seen t =
    All (λ u. (t.serial_key ≡ none) ⊎ (u.serial_key ≢ t.serial_key) ⊎ (u.status ≢ running)) seen

-- A task that may be handed out: it is pending and due, of a kind that is asked for, not locked by
-- another call, and its serial key is free.
pub record Ready (locked : String → Bool) (seen : Table) (now : ℕ) (kinds : List String)
    (t : RuntimeTask) : Type 0 where
  pub waits : t.status ≡ pending
  pub due : t.available_at ≤ now
  pub wanted : In t.kind kinds
  pub unlocked : locked t.id ≡ false
  pub serial : SerialFree seen t

-- Strictly before: of higher priority, or of the same and due earlier, or due at the same time and
-- created earlier.
abbrev pub Before : RuntimeTask → RuntimeTask → Type 0
Before t u =
    (ltz u.priority t.priority ≡ true)
    ⊎ (t.priority ≡ u.priority)
      × ((t.available_at < u.available_at)
          ⊎ (t.available_at ≡ u.available_at) × (t.created_at < u.created_at))

pending-eq : (s : Status) → is_pending s ≡ true → s ≡ pending
pending-eq pending h = refl
pending-eq running h = cc
pending-eq succeeded h = cc
pending-eq failed h = cc
pending-eq cancelled h = cc
pending-eq dead h = cc

running-eq : (s : Status) → is_running s ≡ true → s ≡ running
running-eq pending h = cc
running-eq running h = refl
running-eq succeeded h = cc
running-eq failed h = cc
running-eq cancelled h = cc
running-eq dead h = cc

ltz_refl : (a : ℤ) → ltz a a ≡ false
ltz_refl (pos a) = ground arith
ltz_refl (negsuc a) = ground arith

Before-comes_before : (t u : RuntimeTask) → Before t u → comes_before t u ≡ true
unfolding comes_before
Before-comes_before t u (inl h) = rw h refl
Before-comes_before t u (inr (same, h)) = rw (same, ltz_refl u.priority) (ground (arith, h))

-- The subquery on the running rows, row by row.
abbrev taken_by : String → RuntimeTask → Bool
taken_by key u = holds key u.serial_key && is_running u.status

holds-eq : (key : String) (o : Option String) → holds key o ≡ true → o ≡ some key
holds-eq key none h = cc
holds-eq key (some k) h = ap some ((eq_iff k key).0 h)

eq-holds : (key : String) (o : Option String) → o ≡ some key → holds key o ≡ true
eq-holds key none h = cc
eq-holds key (some k) h = (eq_iff k key).1 (cc)

free-SerialFree :
    (key : String) (t : RuntimeTask) (seen : Table)
    → t.serial_key ≡ some key
    → any (taken_by key) seen ≡ false
    → SerialFree seen t
free-SerialFree key t [] k h = tt
free-SerialFree key t (u ∷ seen) k h = (
  elim (Bool-cases (holds key u.serial_key)) [
    | inr e ↦ inr (inl (λ same. false≢true (sym e ∙ eq-holds key u.serial_key (same ∙ k))))
    | inl e ↦ inr (inr (λ runs. ground (arith, h, e, ap is_running runs)))
  ],
  free-SerialFree key t seen k (ground (arith, h)),
)

SerialFree-free :
    (key : String) (t : RuntimeTask) (seen : Table)
    → t.serial_key ≡ some key
    → SerialFree seen t
    → any (taken_by key) seen ≡ false
SerialFree-free key t [] k h = refl
SerialFree-free key t (u ∷ seen) k h = elim (Bool-cases (taken_by key u)) [
  | inr e ↦ rw e (SerialFree-free key t seen k h.1)
  | inl e ↦
      let same : u.serial_key ≡ some key = holds-eq key u.serial_key (ground (arith, e)) in
      let runs : u.status ≡ running = running-eq u.status (ground (arith, e)) in
      absurd (elim h.0 [
        | inl gone ↦ cc (k, gone)
        | inr (inl other) ↦ other (same ∙ sym k)
        | inr (inr stopped) ↦ stopped runs
      ])
]

no_key-SerialFree : (t : RuntimeTask) (seen : Table) → t.serial_key ≡ none → SerialFree seen t
no_key-SerialFree t [] k = tt
no_key-SerialFree t (u ∷ seen) k = (inl k, no_key-SerialFree t seen k)

serial_busy-SerialFree :
    (seen : Table) (t : RuntimeTask) → serial_busy seen t ≡ false → SerialFree seen t
serial_busy-SerialFree seen t h = elim (Option-cases t.serial_key) [
  | inl e ↦ no_key-SerialFree t seen e
  | inr (key, e) ↦ free-SerialFree key t seen e (rw (e, serial_busy) at h)
]

SerialFree-serial_busy :
    (seen : Table) (t : RuntimeTask) → SerialFree seen t → serial_busy seen t ≡ false
SerialFree-serial_busy seen t h = elim (Option-cases t.serial_key) [
  | inl e ↦ rw (e, serial_busy) refl
  | inr (key, e) ↦ rw (e, serial_busy) (SerialFree-free key t seen e h)
]

module _ (locked : String → Bool) (seen : Table) (now : ℕ) (kinds : List String) where
  is_candidate-Ready :
      (t : RuntimeTask)
      → is_candidate locked seen now kinds t ≡ true
      → Ready locked seen now kinds t
  unfolding is_candidate
  is_candidate-Ready t h = record {
    waits = pending-eq t.status (ground (arith, h));
    due = ground (arith, h);
    wanted = (elem_iff t.kind kinds).0 (ground (arith, h));
    unlocked = ground (arith, h);
    serial = serial_busy-SerialFree seen t (ground (arith, h));
  }

  Ready-is_candidate :
      (t : RuntimeTask)
      → Ready locked seen now kinds t
      → is_candidate locked seen now kinds t ≡ true
  unfolding is_candidate
  Ready-is_candidate t r =
      let waits : is_pending t.status ≡ true = rw r.waits refl in
      ground (
        arith,
        waits,
        r.due,
        (elem_iff t.kind kinds).1 r.wanted,
        r.unlocked,
        SerialFree-serial_busy seen t r.serial,
      )

claim-checked :
    (locked : String → Bool) (seen : Table) (now : ℕ) (token owner : String) (kinds : List String)
    (ttl : ℕ) (rows : Table) (o : Option ClaimedTask)
    → (claim locked seen now token owner kinds ttl rows).1 ≡ ok o
    → (claim_checked locked seen now token (trim_space owner) kinds ttl rows).1 ≡ ok o
unfolding claim
claim-checked locked seen now token owner kinds ttl rows o h = ground (arith, h)

-- What holds of each row of the table holds of all.
all_rows :
    (P : RuntimeTask → Type 0) (rows : Table)
    → ((u : RuntimeTask) → InRows u rows → P u)
    → All P rows
all_rows P [] h = tt
all_rows P (u ∷ rows) h = (h u (inl refl), all_rows P rows (λ v m. h v (inr m)))

-- Whatever Claim hands out is a task of the table that is ready (pending, due, of a kind that is asked
-- for, not locked, its serial key free), leased to the caller, and no ready task of the table comes
-- before it by priority, time and creation.
pub claim-least :
    (locked : String → Bool) (seen : Table) (now : ℕ) (token owner : String) (kinds : List String)
    (ttl : ℕ) (rows : Table) (c : ClaimedTask)
    → (claim locked seen now token owner kinds ttl rows).1 ≡ ok (some c)
    → (t : RuntimeTask) × InRows t rows
      × Ready locked seen (unix_milli now) kinds t
      × (c.task
          ≡ lease_to token (trim_space owner) (unix_milli now + unix_milli ttl) (unix_milli now) t)
      × All (λ u. ¬ (Ready locked seen (unix_milli now) kinds u × Before u t)) rows
unfolding claim_checked claim_row
claim-least locked seen now token owner kinds ttl rows c handed =
    let h = claim-checked locked seen now token owner kinds ttl rows (some c) handed in
    elim (Option-cases (first_candidate test rows)) [
      | inl e ↦ absurd (ground (arith, e))
      | inr (t, e) ↦
          let (m, q) = first_candidate-in test rows t e in
          (
            t,
            m,
            is_candidate-Ready locked seen (unix_milli now) kinds t q,
            ground (arith, e),
            all_rows _ rows (least t e),
          )
    ]
  where
    test : RuntimeTask → Bool
    test = is_candidate locked seen (unix_milli now) kinds

    least :
        (t : RuntimeTask)
        → first_candidate test rows ≡ some t
        → (u : RuntimeTask) → InRows u rows
        → ¬ (Ready locked seen (unix_milli now) kinds u × Before u t)
    least t e u n (ready, b) =
        let k = Ready-is_candidate locked seen (unix_milli now) kinds u ready in
        false≢true (sym (first_candidate-least test rows t u e n k) ∙ Before-comes_before u t b)

-- A claim that hands out nothing though a task is ready found one whose serial key is held by a
-- running row already.
pub claim-none :
    (locked : String → Bool) (seen : Table) (now : ℕ) (token owner : String) (kinds : List String)
    (ttl : ℕ) (rows : Table) (u : RuntimeTask)
    → (claim locked seen now token owner kinds ttl rows).1 ≡ ok none
    → InRows u rows
    → Ready locked seen (unix_milli now) kinds u
    → (t : RuntimeTask) × InRows t rows
      × Ready locked seen (unix_milli now) kinds t
      × (serial_violated (
            update_where
              (λ w. w.id == t.id)
              (lease_to token (trim_space owner) (unix_milli now + unix_milli ttl) (unix_milli now))
              rows)
          ≡ true)
unfolding claim_checked claim_row
claim-none locked seen now token owner kinds ttl rows u nothing m ready =
    let h = claim-checked locked seen now token owner kinds ttl rows none nothing in
    let q = Ready-is_candidate locked seen (unix_milli now) kinds u ready in
    elim (Option-cases (first_candidate test rows)) [
      | inl e ↦ absurd (false≢true (sym (first_candidate-none test rows u e m) ∙ q))
      | inr (t, e) ↦
          let (n, k) = first_candidate-in test rows t e in
          (t, n, is_candidate-Ready locked seen (unix_milli now) kinds t k, ground (arith, e))
    ]
  where
    test : RuntimeTask → Bool
    test = is_candidate locked seen (unix_milli now) kinds
