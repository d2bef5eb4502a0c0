-- ===== src/Runs/Exclusive.antt =====
-- At most one run of a session runs: what an UPDATE that starts none keeps.
use mathlib.Core.Bool.{false≢true}
use knowlega.Base.{
  ◌≡◌, refl, sym, ap, ◌∙◌, inl, inr, Bool, true, false, ◌||◌, [], ◌∷◌, ◌++◌, map, arith, any,
  Bool-cases, if◌then◌else◌,
}
use knowlega.Runs.Run.{Run, RunTable, run_running, clash_running, session_violated, update_runs}

-- A change that starts no run and keeps its session and its id.
pub record IsCalm (g : Run → Run) : Type 0 where
  pub stops : (t : Run) → run_running (g t).status ≡ true → run_running t.status ≡ true
  pub session : (t : Run) → (g t).session_id ≡ t.session_id
  pub named : (t : Run) → (g t).id ≡ t.id

clash_running-IsCalm :
    (g : Run → Run) (t u : Run)
    → IsCalm g
    → clash_running t u ≡ false
    → clash_running (g t) (g u) ≡ false
clash_running-IsCalm g t u c h =
    rw (c.session t, c.session u) (ground (arith, c.stops t, c.stops u))

any-clash_running-IsCalm :
    (g : Run → Run) (t : Run) (rows : RunTable)
    → IsCalm g
    → any (clash_running t) rows ≡ false
    → any (clash_running (g t)) (map g rows) ≡ false
any-clash_running-IsCalm g t [] c h = refl
any-clash_running-IsCalm g t (u ∷ rows) c h = elim (Bool-cases (clash_running t u)) [
  | inl e ↦ absurd (false≢true (sym h ∙ ap (λ b. b || any (clash_running t) rows) e))
  | inr e ↦ rw (clash_running-IsCalm g t u c e) (any-clash_running-IsCalm g t rows c (rw e at h))
]

map-exclusive :
    (g : Run → Run) (rows : RunTable)
    → IsCalm g
    → session_violated rows ≡ false
    → session_violated (map g rows) ≡ false
unfolding session_violated
map-exclusive g [] c h = refl
map-exclusive g (t ∷ rows) c h = elim (Bool-cases (any (clash_running t) rows)) [
  | inl e ↦ absurd (false≢true (sym h ∙ ap (λ b. b || session_violated rows) e))
  | inr e ↦ rw (any-clash_running-IsCalm g t rows c e) (map-exclusive g rows c (rw e at h))
]

-- An UPDATE by such a change.
pub update-exclusive :
    (p : Run → Bool) (f : Run → Run) (rows : RunTable)
    → IsCalm f
    → session_violated rows ≡ false
    → session_violated (update_runs p f rows) ≡ false
unfolding update_runs
update-exclusive p f rows c h =
    map-exclusive (λ t. if p t then f t else t) rows
      (record {
        stops = λ t. elim (Bool-cases (p t)) [ inl e ↦ rw e (c.stops t) | inr e ↦ rw e (λ k. k) ];
        session = λ t. elim (Bool-cases (p t)) [ inl e ↦ rw e (c.session t) | inr e ↦ rw e refl ];
        named = λ t. elim (Bool-cases (p t)) [ inl e ↦ rw e (c.named t) | inr e ↦ rw e refl ];
      })
      h

any-clash_running-snoc :
    (x t : Run) (rows : RunTable)
    → run_running t.status ≡ false
    → any (clash_running x) rows ≡ false
    → any (clash_running x) (rows ++ t ∷ []) ≡ false
any-clash_running-snoc x t [] idle h = ground arith
any-clash_running-snoc x t (u ∷ rows) idle h = elim (Bool-cases (clash_running x u)) [
  | inl e ↦ absurd (false≢true (sym h ∙ ap (λ b. b || any (clash_running x) rows) e))
  | inr e ↦ rw e (any-clash_running-snoc x t rows idle (rw e at h))
]

pub snoc-exclusive :
    (t : Run) (rows : RunTable)
    → run_running t.status ≡ false
    → session_violated rows ≡ false
    → session_violated (rows ++ t ∷ []) ≡ false
unfolding session_violated
snoc-exclusive t [] idle h = refl
snoc-exclusive t (x ∷ rows) idle h = elim (Bool-cases (any (clash_running x) rows)) [
  | inl e ↦ absurd (false≢true (sym h ∙ ap (λ b. b || session_violated rows) e))
  | inr e ↦ rw (any-clash_running-snoc x t rows idle e) (snoc-exclusive t rows idle (rw e at h))
]
