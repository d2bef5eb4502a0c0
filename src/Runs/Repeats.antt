-- ===== src/Runs/Repeats.antt =====
-- A runner that repeats its Complete, since it did not see the answer.
use mathlib.Core.Bool.{false≢true}
use knowlega.Base.{
  ℕ, String, ◌≡◌, refl, ap, subst, inl, inr, Bool, true, false, not, ◌||◌, [], ◌∷◌, arith,
  if◌then◌else◌, Bool-cases, ◌==◌, any, eq_refl,
}
use knowlega.Runs.Run.{RunAnswer, ok, err, RunTable, update_runs, end_run}
use knowlega.Runs.Lease.{completable, completed_with, complete_run, complete_leased}

-- No row that Complete has changed is one that it may change.
none-completable :
    (now : ℕ) (id token key result : String) (rows : RunTable)
    → any
        (completable id token key)
        (update_runs (completable id token key) (complete_run now key result) rows)
      ≡ false
unfolding update_runs
none-completable now id token key result [] = refl
none-completable now id token key result (t ∷ rows) =
    elim (Bool-cases (completable id token key t)) [
      | inl e ↦
          let over : completable id token key (complete_run now key result t) ≡ false =
            unfold complete_run end_run in ground arith in
          rw (e, over) (none-completable now id token key result rows)
      | inr e ↦ rw (e, e) (none-completable now id token key result rows)
    ]

some-completed_with :
    (now : ℕ) (id token key result : String) (rows : RunTable)
    → any (completable id token key) rows ≡ true
    → any
        (completed_with id key)
        (update_runs (completable id token key) (complete_run now key result) rows)
      ≡ true
unfolding update_runs
some-completed_with now id token key result [] h = absurd (false≢true h)
some-completed_with now id token key result (t ∷ rows) h =
    elim (Bool-cases (completable id token key t)) [
      | inl e ↦
          let over : completed_with id key (complete_run now key result t) ≡ true =
            unfold complete_run end_run in ground (arith, e, eq_refl key) in
          rw (e, over) refl
      | inr e ↦
          let rest = some-completed_with now id token key result rows (rw e at h) in
          rw (e, rest)
            (elim (Bool-cases (completed_with id key t)) [ inl f ↦ rw f refl | inr f ↦ rw f refl ])
    ]

-- Once Complete has answered true, the same call at any later time, with any result that is JSON,
-- answers true as well and changes nothing: the first result stays.
pub complete_again :
    (valid : String → Bool) (now later : ℕ) (id token key result result' : String)
    (rows after : RunTable)
    → valid result' ≡ true
    → complete_leased valid now id token key result rows ≡ (after, ok true)
    → complete_leased valid later id token key result' after ≡ (after, ok true)
unfolding complete_leased
complete_again valid now later id token key result result' rows after json h =
    elim (Bool-cases (key == "" || not (valid result))) [
      | inl e ↦ absurd (ground (arith, ap is_true_answer (rw e at h)))
      | inr e ↦
          let fine : (key == "" || not (valid result')) ≡ false = ground (arith, e, json) in
          rw fine (elim (Bool-cases (any (completable id token key) rows)) [
            | inl f ↦
                let done = ap (λ o. o.0) (rw (e, f) at h) in
                subst (λ r. answer later result' r ≡ (r, ok true)) done
                  (rw
                    (
                      none-completable now id token key result rows,
                      some-completed_with now id token key result rows f,
                    )
                    refl)
            | inr f ↦
                let same = ap (λ o. o.0) (rw (e, f) at h) in
                subst (λ r. answer later result' r ≡ (r, ok true)) same
                  (rw (f, ap is_true_answer (rw (e, f) at h)) refl)
          ])
    ]
  where
    answer : ℕ → String → RunTable → RunTable × RunAnswer Bool
    answer at r table =
        if any (completable id token key) table
        then (update_runs (completable id token key) (complete_run at key r) table, ok true)
        else (table, ok (any (completed_with id key) table))

    is_true_answer : RunTable × RunAnswer Bool → Bool
    is_true_answer (t, ok b) = b
    is_true_answer (t, err e) = false
