-- ===== src/Scheduler/Sane.antt =====
-- What holds of the scheduler's state whenever it waits: the dispatch keeps it.
use mathlib.Core.Bool.{false≢true}
use knowlega.Base.{
  ℕ, zero, suc, ◌≤◌, String, ◌≡◌, refl, sym, ap, ◌∙◌, ◌+◌, inl, inr, Bool, true, false, ◌&&◌,
  Option, none, some, List, [], ◌∷◌, arith, ◌=ℕ◌, ltb, ltb→lt, subst, length, any, elem, All,
  Bool-cases, Option-cases,
}
use knowlega.Scheduler.Types.{
  SourceTask, Limits, Sched, attempt_limit, is_none, save_state, release_paths,
}
use knowlega.Scheduler.Results.{end_one}
use knowlega.Scheduler.Events.{InTasks}
use knowlega.Scheduler.Dispatch.{
  disjoint, mark_processing, start, drain_queue, pick_free, may_retry, start_retry, drain_conflicts,
  dispatch,
}

-- The numbers of a task are within the limits, but for one more attempt that a restart may make, and
-- for what the persisted states had beyond them.
pub record TaskOk (extra : ℕ) (l : Limits) (t : SourceTask) : Type 0 where
  pub attempt_le : t.attempt ≤ suc (attempt_limit l t.update_only + extra)
  pub conflicts_le : t.conflict_attempts ≤ l.max_conflict_attempts + extra

-- An active task has the index, and its conflict paths are the paths.
abbrev pub OfActive : List SourceTask → ℕ → List String → Type 0
OfActive active i paths =
    (t : SourceTask) × InTasks t active × (t.index ≡ i) × (t.conflict_paths ≡ paths)

-- The recorded paths are the conflict paths of active tasks, and pairwise disjoint.
abbrev pub Apart : List SourceTask → List (ℕ × List String) → Type 0
Apart active [] = Unit
Apart active ((i, paths) ∷ held) =
    (disjoint held paths ≡ true) × OfActive active i paths × Apart active held

Apart-more :
    (u : SourceTask) (active : List SourceTask) (held : List (ℕ × List String))
    → Apart active held
    → Apart (u ∷ active) held
Apart-more u active [] h = tt
Apart-more u active ((i, paths) ∷ held) (free, (t, there, at, its), rest) =
    (free, (t, inr there, at, its), Apart-more u active held rest)

pub record Sane (extra : ℕ) (l : Limits) (s : Sched) : Type 0 where
  pub within : length s.active ≤ l.concurrency
  pub apart : Apart s.active s.held
  pub queued : All (TaskOk extra l) s.queue
  pub retries : All (TaskOk extra l) s.conflict_queue
  pub running : All (TaskOk extra l) s.active

any_release :
    (f : ℕ × List String → Bool) (i : ℕ) (held : List (ℕ × List String))
    → any f held ≡ false
    → any f (release_paths i held) ≡ false
any_release f i [] h = h
any_release f i ((j, paths) ∷ held) h = elim (Bool-cases (j =ℕ i)) [
  | inl e ↦ rw e (any_release f i held (ground (arith, h)))
  | inr e ↦ rw e (ground (arith, h, any_release f i held (ground (arith, h))))
]

any_paths-release :
    (i : ℕ) (held : List (ℕ × List String)) (paths : List String)
    → any (λ path. any (λ (h : ℕ × List String). elem path h.1) held) paths ≡ false
    → any (λ path. any (λ (h : ℕ × List String). elem path h.1) (release_paths i held)) paths
      ≡ false
any_paths-release i held [] h = h
any_paths-release i held (p ∷ paths) h =
    let first : any (λ (x : ℕ × List String). elem p x.1) held ≡ false = ground (arith, h) in
    let others : any (λ path. any (λ (x : ℕ × List String). elem path x.1) held) paths ≡ false =
      ground (arith, h) in
    rw (any_release (λ (x : ℕ × List String). elem p x.1) i held first)
      (any_paths-release i held paths others)

disjoint-release :
    (i : ℕ) (held : List (ℕ × List String)) (paths : List String)
    → disjoint held paths ≡ true
    → disjoint (release_paths i held) paths ≡ true
unfolding disjoint
disjoint-release i held paths h = rw (any_paths-release i held paths (ground (arith, h))) refl

release_paths-Apart :
    (i : ℕ) (active : List SourceTask) (held : List (ℕ × List String))
    → Apart active held
    → Apart active (release_paths i held)
release_paths-Apart i active [] h = h
release_paths-Apart i active ((j, paths) ∷ held) h = elim (Bool-cases (j =ℕ i)) [
  | inl e ↦ rw e (release_paths-Apart i active held h.2)
  | inr e ↦ rw e (disjoint-release i held paths h.0, h.1, release_paths-Apart i active held h.2)
]

InTasks-end_one :
    (i : ℕ) (t : SourceTask) (active : List SourceTask)
    → InTasks t active
    → (t.index =ℕ i) ≡ false
    → InTasks t (end_one i active)
InTasks-end_one i t [] m other = absurd m
InTasks-end_one i t (u ∷ active) m other = elim (Bool-cases (u.index =ℕ i)) [
  | inl e ↦ rw e (elim m [
    | inl same ↦ absurd (false≢true (sym other ∙ ap (λ (x : SourceTask). x.index =ℕ i) same ∙ e))
    | inr there ↦ there
  ])
  | inr e ↦
      rw e
        (elim m [ inl same ↦ inl same | inr there ↦ inr (InTasks-end_one i t active there other) ])
]

-- A task of the index ends, and its paths are released.
pub end_one-Apart :
    (i : ℕ) (active : List SourceTask) (held : List (ℕ × List String))
    → Apart active held
    → Apart (end_one i active) (release_paths i held)
end_one-Apart i active [] h = h
end_one-Apart i active ((j, paths) ∷ held) (free, (t, there, at, its), rest) =
    elim (Bool-cases (j =ℕ i)) [
      | inl e ↦ rw e (end_one-Apart i active held rest)
      | inr e ↦ rw e (
        disjoint-release i held paths free,
        (t, InTasks-end_one i t active there (ap (λ n. n =ℕ i) at ∙ e), at, its),
        end_one-Apart i active held rest,
      )
    ]

mark_processing-Sane :
    {extra : ℕ} (l : Limits) (source_of : ℕ → String) (t : SourceTask) (s : Sched)
    → Sane extra l s
    → Sane extra l (mark_processing source_of t s)
unfolding mark_processing
mark_processing-Sane l source_of t s h = record {
  within = h.within;
  apart = h.apart;
  queued = h.queued;
  retries = h.retries;
  running = h.running;
}

start-Sane :
    {extra : ℕ} (l : Limits) (source_of : ℕ → String) (t : SourceTask) (s : Sched)
    → ltb (length s.active) l.concurrency ≡ true
    → TaskOk extra l t
    → Sane extra l s
    → Sane extra l (start t (mark_processing source_of t s))
unfolding mark_processing
start-Sane l source_of t s room ok h = record {
  within = ltb→lt (length s.active) l.concurrency room;
  apart = Apart-more t s.active s.held h.apart;
  queued = h.queued;
  retries = h.retries;
  running = (ok, h.running);
}

with_queue :
    {extra : ℕ} (l : Limits) (queue : List SourceTask) (s : Sched)
    → All (TaskOk extra l) queue
    → Sane extra l s
    → Sane extra l (record s { queue = queue })
with_queue l queue s q h = record {
  within = h.within;
  apart = h.apart;
  queued = q;
  retries = h.retries;
  running = h.running;
}

drain_queue-Sane :
    {extra : ℕ} (l : Limits) (source_of : ℕ → String) (queue : List SourceTask) (s : Sched)
    → All (TaskOk extra l) queue
    → Sane extra l s
    → Sane extra l (drain_queue l source_of queue s).0
unfolding drain_queue
drain_queue-Sane l source_of [] s q h = with_queue l [] s q h
drain_queue-Sane l source_of (t ∷ queue) s q h =
    elim (Bool-cases (is_none s.fatal && ltb (length s.active) l.concurrency)) [
      | inr e ↦ rw e (with_queue l (t ∷ queue) s q h)
      | inl e ↦ elim (Bool-cases (save_state s.faults).0) [
        | inr f ↦
            rw (e, f)
              (with_queue l queue (mark_processing source_of t s) q.1
                (mark_processing-Sane l source_of t s h))
        | inl f ↦
            rw (e, f)
              (drain_queue-Sane l source_of queue (start t (mark_processing source_of t s)) q.1
                (start-Sane l source_of t s (ground (arith, e)) q.0 h))
      ]
    ]

-- What is picked is free, and it and the others were there.
PickOk : ℕ → Limits → List (ℕ × List String) → Option (SourceTask × List SourceTask) → Type 0
PickOk extra l held none = Unit
PickOk extra l held (some (t, others)) =
    (disjoint held t.conflict_paths ≡ true) × TaskOk extra l t × All (TaskOk extra l) others

pick_behind :
    {extra : ℕ} (l : Limits) (held : List (ℕ × List String)) (t : SourceTask)
    (o : Option (SourceTask × List SourceTask))
    → TaskOk extra l t
    → PickOk extra l held o
    → PickOk extra l held (elim o [ none ↦ none | some (u, others) ↦ some (u, t ∷ others) ])
unfolding PickOk
pick_behind l held t none ok h = tt
pick_behind l held t (some (u, others)) ok h = (h.0, h.1, (ok, h.2))

pick_free-Ok :
    (extra : ℕ) (l : Limits) (held : List (ℕ × List String)) (tasks : List SourceTask)
    → All (TaskOk extra l) tasks
    → PickOk extra l held (pick_free held tasks)
unfolding pick_free
pick_free-Ok extra l held [] q = unfold PickOk in tt
pick_free-Ok extra l held (t ∷ tasks) q = elim (Bool-cases (disjoint held t.conflict_paths)) [
  | inl e ↦ rw e (unfold PickOk in (e, q.0, q.1))
  | inr e ↦
      rw e (pick_behind l held t (pick_free held tasks) q.0 (pick_free-Ok extra l held tasks q.1))
]

with_conflicts :
    {extra : ℕ} (l : Limits) (tasks : List SourceTask) (s : Sched)
    → All (TaskOk extra l) tasks
    → Sane extra l s
    → Sane extra l (record s { conflict_queue = tasks })
with_conflicts l tasks s q h = record {
  within = h.within;
  apart = h.apart;
  queued = h.queued;
  retries = q;
  running = h.running;
}

start_retry-Sane :
    {extra : ℕ} (l : Limits) (source_of : ℕ → String) (t : SourceTask) (s : Sched)
    → ltb (length s.active) l.concurrency ≡ true
    → disjoint s.held t.conflict_paths ≡ true
    → TaskOk extra l t
    → Sane extra l s
    → Sane extra l (start_retry t (mark_processing source_of t s))
unfolding mark_processing
start_retry-Sane l source_of t s room free ok h = record {
  within = ltb→lt (length s.active) l.concurrency room;
  apart = (
    disjoint-release t.index s.held t.conflict_paths free,
    (t, inl refl, refl, refl),
    Apart-more t s.active (release_paths t.index s.held)
        (release_paths-Apart t.index s.active s.held h.apart),
  );
  queued = h.queued;
  retries = h.retries;
  running = (ok, h.running);
}

drain_conflicts-Sane :
    {extra : ℕ} (rounds : ℕ) (l : Limits) (source_of : ℕ → String) (s : Sched)
    → Sane extra l s
    → Sane extra l (drain_conflicts rounds l source_of s).0
unfolding drain_conflicts
drain_conflicts-Sane zero l source_of s h = h
drain_conflicts-Sane {extra} (suc rounds) l source_of s h = elim (Bool-cases (may_retry l s)) [
  | inr e ↦ rw e h
  | inl e ↦ elim (Option-cases (pick_free s.held s.conflict_queue)) [
    | inl o ↦ rw (e, o) h
    | inr ((t, others), o) ↦
        let picked : PickOk extra l s.held (some (t, others)) = subst-pick _ l s (t, others) o h in
        let taken = with_conflicts {extra = extra} l others s (unfold PickOk in picked.2) h in
        elim (Bool-cases (save_state s.faults).0) [
          | inr f ↦
              rw (e, o, f)
                (mark_processing-Sane l source_of t (record s { conflict_queue = others }) taken)
          | inl f ↦
              rw (e, o, f)
                (drain_conflicts-Sane rounds l source_of
                  (start_retry t
                    (mark_processing source_of t (record s { conflict_queue = others })))
                  (start_retry-Sane l source_of t (record s { conflict_queue = others })
                    (ground (arith, e)) (unfold PickOk in picked.0) (unfold PickOk in picked.1)
                    taken))
        ]
  ]
]
  where
    subst-pick :
        (extra : ℕ) (l : Limits) (s : Sched) (p : SourceTask × List SourceTask)
        → pick_free s.held s.conflict_queue ≡ some p
        → Sane extra l s
        → PickOk extra l s.held (some p)
    subst-pick extra l s p o h =
        subst (λ v. PickOk extra l s.held v) o
          (pick_free-Ok extra l s.held s.conflict_queue h.retries)

pub dispatch-Sane :
    {extra : ℕ} (l : Limits) (source_of : ℕ → String) (s : Sched)
    → Sane extra l s
    → Sane extra l (dispatch l source_of s).0
unfolding dispatch
dispatch-Sane l source_of s h =
    let d = drain_queue-Sane l source_of s.queue s h.queued h in
    elim (Bool-cases (drain_queue l source_of s.queue s).1) [
      | inr e ↦ rw e d
      | inl e ↦ rw e (
          drain_conflicts-Sane (length (drain_queue l source_of s.queue s).0.conflict_queue) l
            source_of (drain_queue l source_of s.queue s).0 d)
    ]
