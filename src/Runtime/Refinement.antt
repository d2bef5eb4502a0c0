-- ===== src/Runtime/Refinement.antt =====
-- Each change of a row is a move of its task.
use mathlib.Core.Bool.{false≢true}
use knowlega.Base.{
  ℕ, ◌<◌, String, ◌≡◌, refl, sym, ◌∙◌, subst, inl, inr, Bool, true, false, Option, none, some, [],
  ◌∷◌, ◌==◌, eq_iff, ◌&&◌, arith, ltb, Bool-cases, if◌then◌else◌,
}
use knowlega.Runtime.Task.{
  RuntimeTask, Status, pending, running, succeeded, failed, cancelled, dead, is_pending, is_running,
}
use knowlega.Runtime.Store.{Table, update_where}
use knowlega.Runtime.Claim.{lease_to}
use knowlega.Runtime.Finish.{
  leased, extend_lease, succeed, releasable, give_back, cancellable, end_cancelled, requeue_failed,
  end_failed, unfinished, cancel_row, reap_requeues, reap_ends, reap_requeue, reap_end,
}
use knowlega.Runtime.Rows.{InRows}
use knowlega.Runtime.Lifecycle.{
  Life, waiting, held, over, Act, claiming, keeping, completing, releasing, acknowledging, failing,
  cancelling, reaping, Move, taken, succeeds, given_back, gives_up, tried_again, exhausted,
  fails_for_good, withdrawn, asked, taken_back, died, dropped, life, Named, Moves, Evolves,
}

-- An UPDATE under which each row that it names makes one move.
pub update-Evolves :
    (act : Act) (name : Option String) (p : RuntimeTask → Bool) (f : RuntimeTask → RuntimeTask)
    (rows : Table)
    → ((t : RuntimeTask) → InRows t rows → p t ≡ true → Moves act name t (f t))
    → Evolves act name rows (update_where p f rows)
unfolding update_where
update-Evolves act name p f [] h = tt
update-Evolves act name p f (t ∷ rows) h =
    let rest = update-Evolves act name p f rows (λ u m. h u (inr m)) in
    elim (Bool-cases (p t)) [
      | inl q ↦ rw q (h t (inl refl) q, rest)
      | inr q ↦ rw q (inl refl, rest)
    ]

running-eq : (s : Status) → is_running s ≡ true → s ≡ running
running-eq pending h = cc
running-eq running h = refl
running-eq succeeded h = cc
running-eq failed h = cc
running-eq cancelled h = cc
running-eq dead h = cc

pending-eq : (s : Status) → is_pending s ≡ true → s ≡ pending
pending-eq pending h = refl
pending-eq running h = cc
pending-eq succeeded h = cc
pending-eq failed h = cc
pending-eq cancelled h = cc
pending-eq dead h = cc

-- A row that is held moves by what a held task may do.
from_held :
    (act : Act) (name : Option String) (t u : RuntimeTask)
    → is_running t.status ≡ true
    → Named name t
    → Move act (held t.attempts t.max_attempts t.cancel_requested) (life u)
    → Moves act name t u
from_held act name t u h n m = inr (n, rw (running-eq t.status h) m)

of_id : (id : String) (t : RuntimeTask) → (t.id == id) ≡ true → t.id ≡ id
of_id id t h = (eq_iff t.id id).0 h

pub extend-Moves :
    (e n : ℕ) (name : Option String) (t : RuntimeTask) → Moves keeping name t (extend_lease e n t)
unfolding extend_lease
extend-Moves e n name t = inl refl

pub succeed-Moves :
    (n : ℕ) (r id token : String) (t : RuntimeTask)
    → leased id token t ≡ true
    → Moves completing (some id) t (succeed n r t)
unfolding succeed
succeed-Moves n r id token t h =
    from_held completing (some id) t (succeed n r t) (ground (arith, h))
      (of_id id t (ground (arith, h))) succeeds

pub give_back-Moves :
    (n : ℕ) (id token : String) (t : RuntimeTask)
    → releasable id token t ≡ true
    → Moves releasing (some id) t (give_back n t)
unfolding give_back
give_back-Moves n id token t h =
    let stays : t.cancel_requested ≡ false = ground (arith, h) in
    from_held releasing (some id) t (give_back n t) (ground (arith, h))
      (of_id id t (ground (arith, h))) (rw stays given_back)

pub end_cancelled-Moves :
    (n : ℕ) (id token : String) (t : RuntimeTask)
    → cancellable id token t ≡ true
    → Moves acknowledging (some id) t (end_cancelled n t)
unfolding end_cancelled
end_cancelled-Moves n id token t h =
    let asked_for : t.cancel_requested ≡ true = ground (arith, h) in
    from_held acknowledging (some id) t (end_cancelled n t) (ground (arith, h))
      (of_id id t (ground (arith, h))) (rw asked_for gives_up)

pub lease_to-Moves :
    (token owner : String) (e n : ℕ) (t : RuntimeTask)
    → is_pending t.status ≡ true
    → Moves claiming none t (lease_to token owner e n t)
unfolding lease_to
lease_to-Moves token owner e n t h = inr (tt, rw (pending-eq t.status h) taken)

pub cancel_row-Moves :
    (n : ℕ) (id : String) (t : RuntimeTask)
    → unfinished id t ≡ true
    → Moves cancelling (some id) t (cancel_row n t)
unfolding cancel_row
cancel_row-Moves n id t h =
    let named = of_id id t (ground (arith, h)) in
    elim (Bool-cases (is_pending t.status)) [
      | inl e ↦ inr (named, rw (pending-eq t.status e) withdrawn)
      | inr e ↦
          let held_now : is_running t.status ≡ true = ground (arith, h, e) in
          inr (named, rw (running-eq t.status held_now) asked)
    ]

pub requeue_failed-Moves :
    (n at : ℕ) (id reason : String) (t : RuntimeTask)
    → is_running t.status ≡ true
    → t.id ≡ id
    → t.attempts < t.max_attempts
    → Moves (failing true) (some id) t (requeue_failed n at reason t)
unfolding requeue_failed
requeue_failed-Moves n at id reason t h named lt =
    from_held (failing true) (some id) t (requeue_failed n at reason t) h named (tried_again lt)

pub end_failed-Moves :
    (n : ℕ) (id reason : String) (retry : Bool) (t : RuntimeTask)
    → is_running t.status ≡ true
    → t.id ≡ id
    → (retry && ltb t.attempts t.max_attempts) ≡ false
    → Moves (failing retry) (some id) t (end_failed n (if retry then dead else failed) reason t)
unfolding end_failed
end_failed-Moves n id reason true t h named spent =
    from_held (failing true) (some id) t (end_failed n dead reason t) h named
      (exhausted (ground (arith, spent)))
end_failed-Moves n id reason false t h named spent =
    from_held (failing false) (some id) t (end_failed n failed reason t) h named fails_for_good

pub reap_requeue-Moves :
    (n : ℕ) (t : RuntimeTask) → reap_requeues n t ≡ true → Moves reaping none t (reap_requeue n t)
unfolding reap_requeue
reap_requeue-Moves n t h =
    let stays : t.cancel_requested ≡ false = ground (arith, h) in
    from_held reaping none t (reap_requeue n t) (ground (arith, h)) tt
      (rw stays (taken_back (ground (arith, h))))

pub reap_end-Moves :
    (n : ℕ) (t : RuntimeTask) → reap_ends n t ≡ true → Moves reaping none t (reap_end n t)
unfolding reap_end
reap_end-Moves n t h = elim (Bool-cases t.cancel_requested) [
  | inl e ↦ from_held reaping none t (reap_end n t) (ground (arith, h)) tt (rw e dropped)
  | inr e ↦
      from_held reaping none t (reap_end n t) (ground (arith, h)) tt
        (rw e (died (ground (arith, h, e))))
]

is_held : Life → Bool
is_held (waiting a m c) = false
is_held (held a m c) = true
is_held (over s) = false

-- What the reaper has moved, it does not move again.
from_held_only : {a b : Life} → Move reaping a b → is_held a ≡ true
unfolding is_held
from_held_only (taken_back h) = refl
from_held_only (died h) = refl
from_held_only dropped = refl

no_longer_held : {a b : Life} → Move reaping a b → is_held b ≡ false
unfolding is_held
no_longer_held (taken_back h) = refl
no_longer_held (died h) = refl
no_longer_held dropped = refl

reap_trans :
    (t u w : RuntimeTask) → Moves reaping none t u → Moves reaping none u w → Moves reaping none t w
reap_trans t u w (inl e) (inl f) = inl (f ∙ e)
reap_trans t u w (inl e) (inr (n, m)) = inr (tt, subst (λ l. Move reaping l (life w)) e m)
reap_trans t u w (inr (n, m)) (inl f) = inr (tt, subst (λ l. Move reaping (life t) l) (sym f) m)
reap_trans t u w (inr (n, m)) (inr (n', m')) =
    absurd (false≢true (sym (no_longer_held m) ∙ from_held_only m'))

pub reap-Evolves :
    (a b c : Table) → Evolves reaping none a b → Evolves reaping none b c → Evolves reaping none a c
reap-Evolves [] [] c h k = k
reap-Evolves [] (u ∷ []) c h k = absurd h
reap-Evolves [] (u ∷ w ∷ b) c h k = absurd h
reap-Evolves (t ∷ a) [] c h k = absurd h
reap-Evolves (t ∷ a) (u ∷ b) [] h k = absurd k
reap-Evolves (t ∷ a) (u ∷ b) (w ∷ c) h k = (reap_trans t u w h.0 k.0, reap-Evolves a b c h.1 k.1)
