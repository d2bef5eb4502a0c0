-- ===== src/Scheduler/Kept.antt =====
-- A dispatch loses no task, makes none, and starts what it can.
use mathlib.Core.Bool.{false≢true}
use knowlega.Base.{
  ℕ, zero, suc, ◌+◌, String, ◌≡◌, refl, sym, subst, ◌∙◌, ◌⊎◌, inl, inr, Bool, true, false, ◌&&◌,
  Option, none, some, List, [], ◌∷◌, arith, ltb, length, All, Bool-cases, Option-cases,
}
use knowlega.Scheduler.Types.{SourceTask, Limits, Sched, is_none, save_state}
use knowlega.Scheduler.Dispatch.{
  disjoint, mark_processing, start, drain_queue, pick_free, may_retry, start_retry, drain_conflicts,
  dispatch,
}
use knowlega.Scheduler.Events.{InTasks}
use knowlega.Scheduler.Busy.{Busy, dispatch-Busy}

-- The task waits, to be started or to be tried again, or is active.
abbrev InHand : SourceTask → Sched → Type 0
InHand t s = InTasks t s.queue ⊎ InTasks t s.conflict_queue ⊎ InTasks t s.active

-- How many tasks wait or are active.
abbrev pub in_hand : Sched → ℕ
in_hand s = length s.queue + length s.conflict_queue + length s.active

-- Where all saves succeed, the tasks in hand are those from before.
Kept : Sched → Sched × Bool → Type 0
Kept s (s', false) = Unit
Kept s (s', true) = ((t : SourceTask) → InHand t s → InHand t s') × (in_hand s' ≡ in_hand s)

Kept-trans : (s m : Sched) (o : Sched × Bool) → Kept s (m, true) → Kept m o → Kept s o
unfolding Kept
Kept-trans s m (s', false) h k = tt
Kept-trans s m (s', true) h k = (λ t p. k.0 t (h.0 t p), k.1 ∙ h.1)

Kept-refl : (s : Sched) → Kept s (s, true)
unfolding Kept
Kept-refl s = (λ t p. p, refl)

start-Kept :
    (source_of : ℕ → String) (u : SourceTask) (queue : List SourceTask) (s : Sched)
    → Kept
        (record s { queue = u ∷ queue })
        (record (start u (mark_processing source_of u s)) { queue = queue }, true)
unfolding Kept mark_processing
start-Kept source_of u queue s = (moved, omega arith)
  where
    moved :
        (t : SourceTask)
        → InHand t (record s { queue = u ∷ queue })
        → InHand t (record (start u (mark_processing source_of u s)) { queue = queue })
    moved t (inl (inl e)) = inr (inr (inl e))
    moved t (inl (inr m)) = inl m
    moved t (inr (inl m)) = inr (inl m)
    moved t (inr (inr m)) = inr (inr (inr m))

drain_queue-Kept :
    (l : Limits) (source_of : ℕ → String) (queue : List SourceTask) (s : Sched)
    → Kept (record s { queue = queue }) (drain_queue l source_of queue s)
unfolding drain_queue
drain_queue-Kept l source_of [] s = Kept-refl (record s { queue = [] })
drain_queue-Kept l source_of (u ∷ queue) s =
    elim (Bool-cases (is_none s.fatal && ltb (length s.active) l.concurrency)) [
      | inr e ↦ rw e (Kept-refl (record s { queue = u ∷ queue }))
      | inl e ↦ elim (Bool-cases (save_state s.faults).0) [
        | inr f ↦ rw (e, f) (unfold Kept in tt)
        | inl f ↦
            rw (e, f)
              (Kept-trans (record s { queue = u ∷ queue })
                (record (start u (mark_processing source_of u s)) { queue = queue }) _
                (start-Kept source_of u queue s)
                (drain_queue-Kept l source_of queue (start u (mark_processing source_of u s))))
      ]
    ]

-- What is picked and the others are the tasks from before.
Picks : List SourceTask → Option (SourceTask × List SourceTask) → Type 0
Picks tasks none = Unit
Picks tasks (some (u, others)) =
    ((t : SourceTask) → InTasks t tasks → (t ≡ u) ⊎ InTasks t others)
    × (length tasks ≡ suc (length others))

picked_behind :
    (x : SourceTask) (tasks : List SourceTask) (o : Option (SourceTask × List SourceTask))
    → Picks tasks o
    → Picks (x ∷ tasks) (elim o [ none ↦ none | some (u, others) ↦ some (u, x ∷ others) ])
unfolding Picks
picked_behind x tasks none h = tt
picked_behind x tasks (some (u, others)) h = (found, omega (arith, h.1))
  where
    found : (t : SourceTask) → InTasks t (x ∷ tasks) → (t ≡ u) ⊎ InTasks t (x ∷ others)
    found t (inl e) = inr (inl e)
    found t (inr m) = elim (h.0 t m) [ inl e ↦ inl e | inr k ↦ inr (inr k) ]

pick_free-Picks :
    (held : List (ℕ × List String)) (tasks : List SourceTask) → Picks tasks (pick_free held tasks)
unfolding pick_free
pick_free-Picks held [] = unfold Picks in tt
pick_free-Picks held (x ∷ tasks) = elim (Bool-cases (disjoint held x.conflict_paths)) [
  | inl e ↦ rw e (unfold Picks in (λ t m. m, refl))
  | inr e ↦ rw e (picked_behind x tasks (pick_free held tasks) (pick_free-Picks held tasks))
]

start_retry-Kept :
    (source_of : ℕ → String) (u : SourceTask) (others : List SourceTask) (s : Sched)
    → Picks s.conflict_queue (some (u, others))
    → Kept s
        (start_retry u (mark_processing source_of u (record s { conflict_queue = others })), true)
unfolding Kept Picks mark_processing
start_retry-Kept source_of u others s h = (moved, omega (arith, h.1))
  where
    moved :
        (t : SourceTask)
        → InHand t s
        → InHand t
            (start_retry u (mark_processing source_of u (record s { conflict_queue = others })))
    moved t (inl m) = inl m
    moved t (inr (inl m)) = elim (h.0 t m) [ inl e ↦ inr (inr (inl e)) | inr k ↦ inr (inl k) ]
    moved t (inr (inr m)) = inr (inr (inr m))

drain_conflicts-Kept :
    (rounds : ℕ) (l : Limits) (source_of : ℕ → String) (s : Sched)
    → Kept s (drain_conflicts rounds l source_of s)
unfolding drain_conflicts
drain_conflicts-Kept zero l source_of s = Kept-refl s
drain_conflicts-Kept (suc rounds) l source_of s = elim (Bool-cases (may_retry l s)) [
  | inr e ↦ rw e (Kept-refl s)
  | inl e ↦ elim (Option-cases (pick_free s.held s.conflict_queue)) [
    | inl o ↦ rw (e, o) (Kept-refl s)
    | inr ((u, others), o) ↦ elim (Bool-cases (save_state s.faults).0) [
      | inr f ↦ rw (e, o, f) (unfold Kept in tt)
      | inl f ↦
          let picks : Picks s.conflict_queue (some (u, others)) =
            subst (λ p. Picks s.conflict_queue p) o (pick_free-Picks s.held s.conflict_queue) in
          rw (e, o, f)
            (Kept-trans s
              (start_retry u (mark_processing source_of u (record s { conflict_queue = others }))) _
              (start_retry-Kept source_of u others s picks)
              (drain_conflicts-Kept rounds l source_of _))
    ]
  ]
]

dispatch-Kept : (l : Limits) (source_of : ℕ → String) (s : Sched) → Kept s (dispatch l source_of s)
unfolding dispatch
dispatch-Kept l source_of s =
    let first = drain_queue-Kept l source_of s.queue s in
    elim (Bool-cases (drain_queue l source_of s.queue s).1) [
      | inr e ↦ rw e (unfold Kept in tt)
      | inl e ↦ rw e (
          Kept-trans s (drain_queue l source_of s.queue s).0 _
            (as_saved (drain_queue l source_of s.queue s) e first)
            (drain_conflicts-Kept (length (drain_queue l source_of s.queue s).0.conflict_queue) l
              source_of (drain_queue l source_of s.queue s).0))
    ]
  where
    as_saved : (o : Sched × Bool) → o.1 ≡ true → Kept s o → Kept s (o.0, true)
    as_saved o e h = subst (λ b. Kept s (o.0, b)) e h

-- All tasks that wait or are active in the first state do so in the second.
abbrev pub AllInHand : Sched → Sched → Type 0
AllInHand s s' =
    All (λ t. InHand t s') s.queue
    × All (λ t. InHand t s') s.conflict_queue
    × All (λ t. InHand t s') s.active

all_tasks :
    (P : SourceTask → Type 0) (tasks : List SourceTask)
    → ((t : SourceTask) → InTasks t tasks → P t)
    → All P tasks
all_tasks P [] h = tt
all_tasks P (u ∷ tasks) h = (h u (inl refl), all_tasks P tasks (λ t m. h t (inr m)))

saved-Kept :
    (s : Sched) (o : Sched × Bool)
    → Kept s o
    → o.1 ≡ true
    → AllInHand s o.0 × (in_hand o.0 ≡ in_hand s)
unfolding Kept
saved-Kept s (s', true) h e = (
  (
    all_tasks _ s.queue (λ t m. h.0 t (inl m)),
    all_tasks _ s.conflict_queue (λ t m. h.0 t (inr (inl m))),
    all_tasks _ s.active (λ t m. h.0 t (inr (inr m))),
  ),
  h.1,
)
saved-Kept s (s', false) h e = absurd (false≢true e)

-- A dispatch whose saves succeed keeps each task that waits or is active, and their number; afterwards
-- the run has failed, or as many tasks are active as may be, or the queue is empty.
pub dispatch-Dispatched :
    (l : Limits) (source_of : ℕ → String) (s : Sched)
    → (dispatch l source_of s).1 ≡ true
    → AllInHand s (dispatch l source_of s).0
      × (in_hand (dispatch l source_of s).0 ≡ in_hand s)
      × Busy l (dispatch l source_of s).0
dispatch-Dispatched l source_of s saved =
    let (there, number) =
      saved-Kept s (dispatch l source_of s) (dispatch-Kept l source_of s) saved in
    (
      there,
      number,
      elim (dispatch-Busy l source_of s) [
        | inl lost ↦ absurd (false≢true (sym lost ∙ saved))
        | inr busy ↦ busy
      ],
    )
