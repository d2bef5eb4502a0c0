-- ===== src/Scheduler/Dispatch.antt =====
-- `disjoint` and `dispatch`: tasks are started while there is room, the conflict retries last.
use knowlega.Base.{
  ℕ, zero, suc, String, Bool, true, false, not, ◌&&◌, Option, none, some, List, [], ◌∷◌, ltb, ◌=ℕ◌,
  if◌then◌else◌, length, any, elem,
}
use knowlega.Scheduler.Types.{
  SourceTask, processing, update_state, Limits, Sched, set_state, is_none, save_state,
  release_paths, or_fatal, not_saved,
}

-- No path is used by an active conflict retry.
unfoldable pub disjoint : List (ℕ × List String) → List String → Bool
disjoint held paths = not (any (λ path. any (λ (h : ℕ × List String). elem path h.1) held) paths)

-- The task is marked processing and the state is saved.
unfoldable pub mark_processing : (ℕ → String) → SourceTask → Sched → Sched
unfolding update_state
mark_processing source_of t s =
    let source = source_of t.index in
    record s {
      states =
          set_state source
            (update_state processing t.attempt "" t.fingerprint t.update_only (s.states source))
            s.states;
      faults = (save_state s.faults).1;
    }

abbrev pub start : SourceTask → Sched → Sched
start t s = record s { active = t ∷ s.active }

-- The first loop, over the queue; whether all saves succeeded.
unfoldable pub drain_queue : Limits → (ℕ → String) → List SourceTask → Sched → Sched × Bool
unfolding mark_processing
drain_queue l source_of [] s = (record s { queue = [] }, true)
drain_queue l source_of (t ∷ queue) s =
    let marked = mark_processing source_of t s in
    let rest = drain_queue l source_of queue (start t marked) in
    if is_none s.fatal && ltb (length s.active) l.concurrency
    then (if (save_state s.faults).0 then rest else (record marked { queue = queue }, false))
    else (record s { queue = t ∷ queue }, true)

-- The first conflict retry whose paths are free, and the others.
unfoldable pub pick_free :
    List (ℕ × List String) → List SourceTask → Option (SourceTask × List SourceTask)
unfolding disjoint
pick_free held [] = none
pick_free held (t ∷ tasks) =
    let rest = pick_free held tasks in
    if disjoint held t.conflict_paths
    then some (t, tasks)
    else elim rest [ none ↦ none | some (u, others) ↦ some (u, t ∷ others) ]

abbrev pub may_retry : Limits → Sched → Bool
may_retry l s =
    is_none s.fatal
    && length s.queue =ℕ 0
    && length s.active =ℕ length s.held
    && ltb (length s.active) l.concurrency

abbrev pub start_retry : SourceTask → Sched → Sched
start_retry t s = record s {
  active = t ∷ s.active;
  held = (t.index, t.conflict_paths) ∷ release_paths t.index s.held;
}

-- active-len(activeConflictPaths) == 0: the active tasks are as many as the held paths.
-- The second loop; each round takes a retry, so as many rounds as there are retries suffice.
unfoldable pub drain_conflicts : ℕ → Limits → (ℕ → String) → Sched → Sched × Bool
unfolding pick_free mark_processing
drain_conflicts zero l source_of s = (s, true)
drain_conflicts (suc rounds) l source_of s =
    if may_retry l s
    then elim (pick_free s.held s.conflict_queue) [
      | none ↦ (s, true)
      | some (t, others) ↦
          let marked = mark_processing source_of t (record s { conflict_queue = others }) in
          if (save_state s.faults).0
          then drain_conflicts rounds l source_of (start_retry t marked)
          else (marked, false)
    ]
    else (s, true)

unfoldable pub dispatch : Limits → (ℕ → String) → Sched → Sched × Bool
unfolding drain_queue drain_conflicts
dispatch l source_of s =
    let (s', saved) = drain_queue l source_of s.queue s in
    if saved then drain_conflicts (length s'.conflict_queue) l source_of s' else (s', false)

-- if err := dispatch(); err != nil && fatalErr == nil { fatalErr = err }
abbrev pub note_fatal : Sched × Bool → Sched
note_fatal (s, true) = s
note_fatal (s, false) = record s { fatal = or_fatal s.fatal not_saved }
