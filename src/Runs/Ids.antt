-- ===== src/Runs/Ids.antt =====
-- The id is the primary key: a row that a SELECT has found is the only one of its id.
use knowlega.Base.{
  ◌≡◌, ◌⊎◌, refl, sym, ap, ◌∙◌, subst, inl, inr, Bool, true, false, Option, none, some, [], ◌∷◌,
  ◌++◌, ◌==◌, arith, any, All, All-append, Bool-cases, if◌then◌else◌, eq_iff,
}
use knowlega.Runs.Run.{Run, RunTable, update_runs, find_run}
use knowlega.Runs.Lease.{older_run, oldest_run}

abbrev pub DistinctIds : RunTable → Type 0
DistinctIds [] = Unit
DistinctIds (t ∷ rows) = All (λ u. (u.id == t.id) ≡ false) rows × DistinctIds rows

abbrev pub InRuns : Run → RunTable → Type 0
InRuns t [] = ⊥
InRuns t (u ∷ rows) = (t ≡ u) ⊎ InRuns t rows

-- Each row has another id or is the run.
abbrev pub Only : Run → RunTable → Type 0
Only t rows = All (λ u. ((u.id == t.id) ≡ false) ⊎ (u ≡ t)) rows

All-other : (t : Run) (rows : RunTable) → All (λ u. (u.id == t.id) ≡ false) rows → Only t rows
All-other t [] h = tt
All-other t (u ∷ rows) h = (inl h.0, All-other t rows h.1)

other-in :
    (t u : Run) (rows : RunTable)
    → All (λ w. (w.id == u.id) ≡ false) rows
    → InRuns t rows
    → (u.id == t.id) ≡ false
other-in t u [] h m = absurd m
other-in t u (w ∷ rows) h (inl e) =
    let apart : (t.id == u.id) ≡ false = ap (λ (x : Run). x.id == u.id) e ∙ h.0 in
    ground (arith, apart, eq_iff t.id u.id, eq_iff u.id t.id)
other-in t u (w ∷ rows) h (inr m) = other-in t u rows h.1 m

pub Only-in : (t : Run) (rows : RunTable) → DistinctIds rows → InRuns t rows → Only t rows
Only-in t [] d m = tt
Only-in t (u ∷ rows) d (inl e) = (
  inr (sym e),
  All-other t rows (subst (λ x. All (λ w. (w.id == x.id) ≡ false) rows) (sym e) d.0),
)
Only-in t (u ∷ rows) d (inr m) = (inl (other-in t u rows d.0 m), Only-in t rows d.1 m)

pub find_run-in :
    (p : Run → Bool) (rows : RunTable) (t : Run)
    → find_run p rows ≡ some t
    → InRuns t rows × (p t ≡ true)
unfolding find_run
find_run-in p [] t h = cc
find_run-in p (u ∷ rows) t h = elim (Bool-cases (p u)) [
  | inl e ↦ let same : u ≡ t = cc (rw e at h) in (inl (sym same), subst (λ x. p x ≡ true) same e)
  | inr e ↦ let (m, q) = find_run-in p rows t (rw e at h) in (inr m, q)
]

older_run-cases : (u t : Run) (o : Option Run) → older_run u o ≡ some t → (t ≡ u) ⊎ (o ≡ some t)
older_run-cases u t none h = inl (cc)
older_run-cases u t (some w) h = ground (arith, h)

pub oldest_run-in :
    (p : Run → Bool) (rows : RunTable) (t : Run)
    → oldest_run p rows ≡ some t
    → InRuns t rows × (p t ≡ true)
unfolding oldest_run
oldest_run-in p [] t h = cc
oldest_run-in p (u ∷ rows) t h = elim (Bool-cases (p u)) [
  | inl e ↦ elim (older_run-cases u t (oldest_run p rows) (rw e at h)) [
    | inl same ↦ (inl same, subst (λ x. p x ≡ true) (sym same) e)
    | inr rest ↦ let (m, q) = oldest_run-in p rows t rest in (inr m, q)
  ]
  | inr e ↦ let (m, q) = oldest_run-in p rows t (rw e at h) in (inr m, q)
]

All-ids :
    (p : Run → Bool) (f : Run → Run) (t : Run) (rows : RunTable)
    → ((u : Run) → (f u).id ≡ u.id)
    → All (λ u. (u.id == t.id) ≡ false) rows
    → All (λ u. (u.id == (if p t then f t else t).id) ≡ false) (update_runs p f rows)
unfolding update_runs
All-ids p f t [] same h = tt
All-ids p f t (u ∷ rows) same h =
    (rw (kept p f same u, kept p f same t) h.0, All-ids p f t rows same h.1)
  where
    kept :
        (p : Run → Bool) (f : Run → Run)
        → ((u : Run) → (f u).id ≡ u.id)
        → (u : Run) → (if p u then f u else u).id ≡ u.id
    kept p f same u = elim (Bool-cases (p u)) [ inl e ↦ rw e (same u) | inr e ↦ rw e refl ]

-- An UPDATE that leaves the ids.
pub update-DistinctIds :
    (p : Run → Bool) (f : Run → Run) (rows : RunTable)
    → ((u : Run) → (f u).id ≡ u.id)
    → DistinctIds rows
    → DistinctIds (update_runs p f rows)
unfolding update_runs
update-DistinctIds p f [] same d = tt
update-DistinctIds p f (t ∷ rows) same d =
    (unfold update_runs in All-ids p f t rows same d.0, update-DistinctIds p f rows same d.1)

pub snoc-DistinctIds :
    (t : Run) (rows : RunTable)
    → any (λ u. u.id == t.id) rows ≡ false
    → DistinctIds rows
    → DistinctIds (rows ++ t ∷ [])
snoc-DistinctIds t [] h d = (tt, tt)
snoc-DistinctIds t (u ∷ rows) h d =
    let apart : (t.id == u.id) ≡ false = ground (arith, h, eq_iff t.id u.id, eq_iff u.id t.id) in
    let rest : any (λ w. w.id == t.id) rows ≡ false = ground (arith, h) in
    (All-append _ rows (t ∷ []) d.0 (apart, tt), snoc-DistinctIds t rows rest d.1)

pub All-InRuns : (P : Run → Type 0) (rows : RunTable) → All P rows → (t : Run) → InRuns t rows → P t
All-InRuns P [] h t m = absurd m
All-InRuns P (u ∷ rows) h t (inl e) = subst P (sym e) h.0
All-InRuns P (u ∷ rows) h t (inr m) = All-InRuns P rows h.1 t m
