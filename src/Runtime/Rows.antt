-- ===== src/Runtime/Rows.antt =====
-- What an UPDATE of some rows of `runtime_tasks` keeps.
use knowlega.Base.{
  ◌≡◌, refl, sym, ap, subst, ◌∙◌, ◌≢◌, ◌⊎◌, inl, inr, Bool, true, false, ◌||◌, some, [], ◌∷◌, ◌++◌,
  map, arith, ◌==◌, eq_iff, any, All, All-append, Bool-cases,
}
use mathlib.Core.Bool.{false≢true}
use knowlega.Runtime.Task.{RuntimeTask, is_running}
use knowlega.Runtime.Store.{Table, find_row}
use knowlega.Runtime.Claim.{clash, serial_violated}

abbrev pub InRows : RuntimeTask → Table → Type 0
InRows t [] = ⊥
InRows t (u ∷ rows) = (t ≡ u) ⊎ InRows t rows

-- No two rows have the same id.
abbrev pub DistinctIds : Table → Type 0
DistinctIds [] = Unit
DistinctIds (t ∷ rows) = All (λ u. u.id ≢ t.id) rows × DistinctIds rows

pub All-in :
    (P : RuntimeTask → Type 0) (rows : Table) → All P rows → (t : RuntimeTask) → InRows t rows → P t
All-in P [] h t m = absurd m
All-in P (u ∷ rows) h t (inl e) = subst P (sym e) h.0
All-in P (u ∷ rows) h t (inr m) = All-in P rows h.1 t m

-- A row-wise change under which what holds of each row before gives what holds after.
pub All-map_in :
    (P Q : RuntimeTask → Type 0) (g : RuntimeTask → RuntimeTask) (rows : Table)
    → ((t : RuntimeTask) → InRows t rows → P t → Q (g t))
    → All P rows
    → All Q (map g rows)
All-map_in P Q g [] h a = tt
All-map_in P Q g (t ∷ rows) h a =
    (h t (inl refl) a.0, All-map_in P Q g rows (λ u m. h u (inr m)) a.1)

pub same_of_id :
    (rows : Table) (t u : RuntimeTask)
    → DistinctIds rows
    → InRows t rows
    → InRows u rows
    → t.id ≡ u.id
    → t ≡ u
same_of_id [] t u d a b e = absurd a
same_of_id (x ∷ rows) t u d (inl p) (inl q) e = p ∙ sym q
same_of_id (x ∷ rows) t u d (inl p) (inr b) e =
    absurd (All-in (λ y. y.id ≢ x.id) rows d.0 u b (sym e ∙ ap (λ (y : RuntimeTask). y.id) p))
same_of_id (x ∷ rows) t u d (inr a) (inl q) e =
    absurd (All-in (λ y. y.id ≢ x.id) rows d.0 t a (e ∙ ap (λ (y : RuntimeTask). y.id) q))
same_of_id (x ∷ rows) t u d (inr a) (inr b) e = same_of_id rows t u d.1 a b e

pub find_row-in :
    (p : RuntimeTask → Bool) (rows : Table) (t : RuntimeTask)
    → find_row p rows ≡ some t
    → InRows t rows × (p t ≡ true)
unfolding find_row
find_row-in p [] t h = cc
find_row-in p (u ∷ rows) t h = elim (Bool-cases (p u)) [
  | inl e ↦ ground (arith, e)
  | inr e ↦ let (m, q) = find_row-in p rows t (ground (arith, e)) in (inr m, q)
]

pub DistinctIds-map :
    (g : RuntimeTask → RuntimeTask) (rows : Table)
    → ((t : RuntimeTask) → (g t).id ≡ t.id)
    → DistinctIds rows
    → DistinctIds (map g rows)
DistinctIds-map g [] h d = tt
DistinctIds-map g (t ∷ rows) h d = (
  All-map_in (λ u. u.id ≢ t.id) (λ u. u.id ≢ (g t).id) g rows (λ u m n e. n (sym (h u) ∙ e ∙ h t))
      d.0,
  DistinctIds-map g rows h d.1,
)

DistinctIds-snoc_head :
    (x t : RuntimeTask) (rows : Table)
    → All (λ u. u.id ≢ x.id) rows
    → t.id ≢ x.id
    → All (λ u. u.id ≢ x.id) (rows ++ t ∷ [])
DistinctIds-snoc_head x t rows a n = All-append (λ u. u.id ≢ x.id) rows (t ∷ []) a (n, tt)

pub DistinctIds-snoc :
    (t : RuntimeTask) (rows : Table)
    → any (λ u. u.id == t.id) rows ≡ false
    → DistinctIds rows
    → DistinctIds (rows ++ t ∷ [])
DistinctIds-snoc t [] h d = (tt, tt)
DistinctIds-snoc t (x ∷ rows) h d = (
  DistinctIds-snoc_head x t rows d.0 (ground (arith, eq_iff x.id t.id)),
  DistinctIds-snoc t rows (ground arith) d.1,
)

-- A row-wise change that starts no task and keeps the serial keys.
pub record Calm (g : RuntimeTask → RuntimeTask) : Type 0 where
  pub stops : (t : RuntimeTask) → is_running (g t).status ≡ true → is_running t.status ≡ true
  pub serial : (t : RuntimeTask) → (g t).serial_key ≡ t.serial_key

clash-Calm :
    (g : RuntimeTask → RuntimeTask) (t u : RuntimeTask)
    → Calm g
    → clash t u ≡ false
    → clash (g t) (g u) ≡ false
clash-Calm g t u c h = rw (c.serial t, c.serial u) (ground (arith, c.stops t, c.stops u))

any-clash-Calm :
    (g : RuntimeTask → RuntimeTask) (t : RuntimeTask) (rows : Table)
    → Calm g
    → any (clash t) rows ≡ false
    → any (clash (g t)) (map g rows) ≡ false
any-clash-Calm g t [] c h = refl
any-clash-Calm g t (u ∷ rows) c h = elim (Bool-cases (clash t u)) [
  | inl e ↦ absurd (false≢true (sym h ∙ ap (λ b. b || any (clash t) rows) e))
  | inr e ↦
      rw (clash-Calm g t u c e)
        (any-clash-Calm g t rows c (ap (λ b. b || any (clash t) rows) (sym e) ∙ h))
]

pub serial_violated-Calm :
    (g : RuntimeTask → RuntimeTask) (rows : Table)
    → Calm g
    → serial_violated rows ≡ false
    → serial_violated (map g rows) ≡ false
unfolding serial_violated
serial_violated-Calm g [] c h = refl
serial_violated-Calm g (t ∷ rows) c h = elim (Bool-cases (any (clash t) rows)) [
  | inl e ↦ absurd (false≢true (sym h ∙ ap (λ b. b || serial_violated rows) e))
  | inr e ↦
      rw (any-clash-Calm g t rows c e)
        (serial_violated-Calm g rows c (ap (λ b. b || serial_violated rows) (sym e) ∙ h))
]

any-clash-snoc :
    (x t : RuntimeTask) (rows : Table)
    → is_running t.status ≡ false
    → any (clash x) rows ≡ false
    → any (clash x) (rows ++ t ∷ []) ≡ false
any-clash-snoc x t [] idle h = ground arith
any-clash-snoc x t (u ∷ rows) idle h = elim (Bool-cases (clash x u)) [
  | inl e ↦ absurd (false≢true (sym h ∙ ap (λ b. b || any (clash x) rows) e))
  | inr e ↦ rw e (any-clash-snoc x t rows idle (ap (λ b. b || any (clash x) rows) (sym e) ∙ h))
]

-- A new row that does not run violates no index.
pub serial_violated-snoc :
    (t : RuntimeTask) (rows : Table)
    → is_running t.status ≡ false
    → serial_violated rows ≡ false
    → serial_violated (rows ++ t ∷ []) ≡ false
unfolding serial_violated
serial_violated-snoc t [] idle h = refl
serial_violated-snoc t (x ∷ rows) idle h = elim (Bool-cases (any (clash x) rows)) [
  | inl e ↦ absurd (false≢true (sym h ∙ ap (λ b. b || serial_violated rows) e))
  | inr e ↦
      rw (any-clash-snoc x t rows idle e)
        (serial_violated-snoc t rows idle (ap (λ b. b || serial_violated rows) (sym e) ∙ h))
]
