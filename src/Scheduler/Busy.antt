-- ===== src/Scheduler/Busy.antt =====
-- A dispatch leaves no task of the queue waiting while there is room.
use knowlega.Base.{
  ℕ, zero, suc, ◌≤◌, ◌≡◌, refl, ◌⊎◌, inl, inr, Bool, false, ◌&&◌, List, [], ◌∷◌, String, arith, ltb,
  length, Bool-cases, Option-cases,
}
use knowlega.Scheduler.Types.{SourceTask, Limits, Sched, is_none, save_state}
use knowlega.Scheduler.Dispatch.{
  mark_processing, start, drain_queue, pick_free, may_retry, start_retry, drain_conflicts, dispatch,
}

-- The run has failed, or there is no room, or no task waits.
abbrev pub Busy : Limits → Sched → Type 0
Busy l s = (is_none s.fatal ≡ false) ⊎ (l.concurrency ≤ length s.active) ⊎ (s.queue ≡ [])

abbrev pub Dispatched : Limits → Sched × Bool → Type 0
Dispatched l o = (o.1 ≡ false) ⊎ Busy l o.0

stopped-Busy :
    (l : Limits) (queue : List SourceTask) (s : Sched)
    → (is_none s.fatal && ltb (length s.active) l.concurrency) ≡ false
    → Busy l (record s { queue = queue })
stopped-Busy l queue s e = elim (Bool-cases (is_none s.fatal)) [
  | inr f ↦ inl f
  | inl f ↦ inr (inl (ground (arith, e, f)))
]

drain_queue-Dispatched :
    (l : Limits) (source_of : ℕ → String) (queue : List SourceTask) (s : Sched)
    → Dispatched l (drain_queue l source_of queue s)
unfolding drain_queue
drain_queue-Dispatched l source_of [] s = inr (inr (inr refl))
drain_queue-Dispatched l source_of (t ∷ queue) s =
    elim (Bool-cases (is_none s.fatal && ltb (length s.active) l.concurrency)) [
      | inr e ↦ rw e (inr (stopped-Busy l (t ∷ queue) s e))
      | inl e ↦ elim (Bool-cases (save_state s.faults).0) [
        | inr f ↦ rw (e, f) (inl refl)
        | inl f ↦
            rw (e, f)
              (drain_queue-Dispatched l source_of queue (start t (mark_processing source_of t s)))
      ]
    ]

start_retry-Busy :
    (l : Limits) (source_of : ℕ → String) (t : SourceTask) (others : List SourceTask) (s : Sched)
    → Busy l s
    → Busy l (start_retry t (mark_processing source_of t (record s { conflict_queue = others })))
unfolding mark_processing
start_retry-Busy l source_of t others s (inl e) = inl e
start_retry-Busy l source_of t others s (inr (inl e)) = inr (inl (omega (arith, e)))
start_retry-Busy l source_of t others s (inr (inr e)) = inr (inr e)

drain_conflicts-Dispatched :
    (rounds : ℕ) (l : Limits) (source_of : ℕ → String) (s : Sched)
    → Busy l s
    → Dispatched l (drain_conflicts rounds l source_of s)
unfolding drain_conflicts
drain_conflicts-Dispatched zero l source_of s h = inr h
drain_conflicts-Dispatched (suc rounds) l source_of s h = elim (Bool-cases (may_retry l s)) [
  | inr e ↦ rw e (inr h)
  | inl e ↦ elim (Option-cases (pick_free s.held s.conflict_queue)) [
    | inl o ↦ rw (e, o) (inr h)
    | inr ((t, others), o) ↦ elim (Bool-cases (save_state s.faults).0) [
      | inr f ↦ rw (e, o, f) (inl refl)
      | inl f ↦
          rw (e, o, f)
            (drain_conflicts-Dispatched rounds l source_of _
              (start_retry-Busy l source_of t others s h))
    ]
  ]
]

-- After a dispatch a save of the state has failed, or the scheduler is busy.
pub dispatch-Busy :
    (l : Limits) (source_of : ℕ → String) (s : Sched) → Dispatched l (dispatch l source_of s)
unfolding dispatch
dispatch-Busy l source_of s = elim (drain_queue-Dispatched l source_of s.queue s) [
  | inl e ↦ rw e (inl refl)
  | inr h ↦ elim (Bool-cases (drain_queue l source_of s.queue s).1) [
    | inr e ↦ rw e (inl refl)
    | inl e ↦ rw e (
        drain_conflicts-Dispatched (length (drain_queue l source_of s.queue s).0.conflict_queue) l
          source_of (drain_queue l source_of s.queue s).0 h)
  ]
]
