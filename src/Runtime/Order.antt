-- ===== src/Runtime/Order.antt =====
-- The order of Claim is one, and its fold over the table finds a first row of it.
use knowlega.Base.{
  ◌≡◌, refl, sym, ◌∙◌, ◌⊎◌, inl, inr, Bool, true, false, none, some, [], ◌∷◌, arith, Bool-cases,
  Option-cases,
}
use mathlib.Core.Bool.{false≢true}
use knowlega.Base.Int.{ℤ, pos, negsuc, ltz}
use knowlega.Runtime.Task.{RuntimeTask}
use knowlega.Runtime.Store.{Table}
use knowlega.Runtime.Claim.{first_candidate, better, comes_before}
use knowlega.Runtime.Rows.{InRows}

ltz_asym : (a b : ℤ) → ltz a b ≡ true → ltz b a ≡ false
ltz_asym (pos a) (pos b) h = ground arith
ltz_asym (pos a) (negsuc b) h = cc
ltz_asym (negsuc a) (pos b) h = refl
ltz_asym (negsuc a) (negsuc b) h = ground arith

ltz_split : (a b c : ℤ) → ltz a b ≡ true → (ltz a c ≡ true) ⊎ (ltz c b ≡ true)
ltz_split (pos a) (pos b) (pos c) h = ground arith
ltz_split (pos a) (pos b) (negsuc c) h = inr refl
ltz_split (pos a) (negsuc b) c h = cc
ltz_split (negsuc a) (pos b) (pos c) h = inl refl
ltz_split (negsuc a) (pos b) (negsuc c) h = inr refl
ltz_split (negsuc a) (negsuc b) (pos c) h = inl refl
ltz_split (negsuc a) (negsuc b) (negsuc c) h = ground arith

comes_before_asym : (t u : RuntimeTask) → comes_before t u ≡ true → comes_before u t ≡ false
unfolding comes_before
comes_before_asym t u h =
    ground (arith, ltz_asym t.priority u.priority, ltz_asym u.priority t.priority)

-- What comes before `x` comes before `y`, or `y` before `x`.
comes_before_split :
    (t x y : RuntimeTask)
    → comes_before t x ≡ true
    → (comes_before t y ≡ true) ⊎ (comes_before y x ≡ true)
unfolding comes_before
comes_before_split t x y h = ground (
  arith,
  ltz_split x.priority t.priority y.priority,
  ltz_split t.priority y.priority x.priority,
  ltz_split y.priority x.priority t.priority,
  ltz_asym x.priority t.priority,
  ltz_asym y.priority t.priority,
  ltz_asym x.priority y.priority,
)

pub first_candidate-none :
    (p : RuntimeTask → Bool) (rows : Table) (u : RuntimeTask)
    → first_candidate p rows ≡ none
    → InRows u rows
    → p u ≡ false
unfolding first_candidate better
first_candidate-none p [] u h m = absurd m
first_candidate-none p (x ∷ rows) u h (inl e) = rw e (elim (Option-cases (first_candidate p rows)) [
  | inl q ↦ ground (arith, q)
  | inr (t, q) ↦ ground (arith, q)
])
first_candidate-none p (x ∷ rows) u h (inr m) = elim (Option-cases (first_candidate p rows)) [
  | inl q ↦ first_candidate-none p rows u q m
  | inr (t, q) ↦ absurd (ground (arith, q))
]

comes_before_irrefl : (x : RuntimeTask) → comes_before x x ≡ false
comes_before_irrefl x = ground (arith, comes_before_asym x x)

last_choice :
    (p : RuntimeTask → Bool) (x : RuntimeTask) (rows : Table) (t : RuntimeTask)
    → p x ≡ true
    → first_candidate p rows ≡ none
    → first_candidate p (x ∷ rows) ≡ some t
    → t ≡ x
unfolding first_candidate better
last_choice p x rows t q e h = some-eq (sym h ∙ rw (q, e))
  where
    some-eq : some t ≡ some x → t ≡ x
    some-eq d = cc

choice :
    (p : RuntimeTask → Bool) (x r : RuntimeTask) (rows : Table) (t : RuntimeTask)
    → p x ≡ true
    → first_candidate p rows ≡ some r
    → first_candidate p (x ∷ rows) ≡ some t
    → ((t ≡ r) × (comes_before r x ≡ true)) ⊎ ((t ≡ x) × (comes_before r x ≡ false))
unfolding first_candidate better
choice p x r rows t q e h = ground (arith, q, e, h)

pub first_candidate-least :
    (p : RuntimeTask → Bool) (rows : Table) (t u : RuntimeTask)
    → first_candidate p rows ≡ some t
    → InRows u rows
    → p u ≡ true
    → comes_before u t ≡ false
unfolding first_candidate better
first_candidate-least p [] t u h m q = absurd m
first_candidate-least p (x ∷ rows) t u h (inl same) q =
    elim (Option-cases (first_candidate p rows)) [
      | inl e ↦ rw same (rw (last_choice p x rows t (rw same at q) e h) (comes_before_irrefl x))
      | inr (r, e) ↦ rw same (elim (choice p x r rows t (rw same at q) e h) [
        | inl (d, k) ↦ rw d (comes_before_asym r x k)
        | inr (d, k) ↦ rw d (comes_before_irrefl x)
      ])
    ]
first_candidate-least p (x ∷ rows) t u h (inr m) q = elim (Bool-cases (p x)) [
  | inr e ↦ first_candidate-least p rows t u (rw e at h) m q
  | inl px ↦ elim (Option-cases (first_candidate p rows)) [
    | inl e ↦ absurd (false≢true (sym (first_candidate-none p rows u e m) ∙ q))
    | inr (r, e) ↦
        let least = first_candidate-least p rows r u e m q in
        elim (choice p x r rows t px e h) [
          | inl (d, k) ↦ rw d least
          | inr (d, k) ↦ rw d (ground (arith, least, k, comes_before_split u x r))
        ]
  ]
]
