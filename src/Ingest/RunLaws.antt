-- ===== src/Ingest/RunLaws.antt =====
-- What a run of the queue does, whatever the validator answers and whichever saves fail.
use mathlib.Core.List.{append-nil, append_assoc, map-append}
use knowlega.Base.{
  ℕ, suc, ◌+◌, ◌≤◌, String, ◌≡◌, refl, ap, ◌∙◌, ◌⊎◌, inl, inr, true, false, Option, none, some,
  List, [], ◌∷◌, ◌++◌, map, arith, All, All-append, count_if, Bool-cases,
}
use knowlega.Ingest.Queue.{IngestTask, is_pending, is_done, World, save_queue}
use knowlega.Ingest.Run.{
  RunOptions, Validated, valid, invalid, RunResult, is_eligible, limit_reached, start_task,
  end_task, count_task, run_tasks,
}

abbrev pub ids : List IngestTask → List String
ids = map (λ t. t.id)

abbrev pub Out : Type 0
Out = World × Option (List IngestTask × RunResult)

-- What holds of the tasks and the result where the loop comes to its end.
abbrev pub Ends : (List IngestTask → RunResult → Type 0) → Out → Type 0
Ends P (w, none) = Unit
Ends P (w, some (tasks, r)) = P tasks r

module _ (opts : RunOptions) (clock : ℕ → String) (validator : ℕ → IngestTask → Validated) where
  abbrev pub started_in : RunResult → IngestTask → IngestTask
  started_in r t = start_task (clock (r.processed + r.processed)) t

  abbrev answer_in : RunResult → IngestTask → Validated
  answer_in r t = validator r.processed (started_in r t)

  abbrev ended_in : RunResult → IngestTask → IngestTask
  ended_in r t = end_task (clock (suc (r.processed + r.processed))) (answer_in r t) (started_in r t)

  -- The four ways of a round.
  pub run_tasks_round :
      (P : Out → Type 0) (before : List IngestTask) (t : IngestTask) (rest : List IngestTask)
      (w : World) (r : RunResult)
      → (limit_reached opts r ≡ true → P (w, some (before ++ (t ∷ rest), r)))
      → (is_eligible opts t ≡ false
          → P (run_tasks opts clock validator (before ++ t ∷ []) rest w r))
      → (limit_reached opts r ≡ false
          → is_eligible opts t ≡ true
          → (save_queue w (before ++ (started_in r t ∷ rest))).1 ≡ true
          → P (
              run_tasks opts clock validator
                (before ++ ended_in r t ∷ [])
                rest
                (save_queue w (before ++ (started_in r t ∷ rest))).0
                (count_task (answer_in r t) r)))
      → ((save_queue w (before ++ (started_in r t ∷ rest))).1 ≡ false
          → P ((save_queue w (before ++ (started_in r t ∷ rest))).0, none))
      → P (run_tasks opts clock validator before (t ∷ rest) w r)
  run_tasks_round P before t rest w r stop pass next fault =
      unfold run_tasks in
      elim (Bool-cases (limit_reached opts r)) [
        | inl e ↦ rw e (stop e)
        | inr e ↦ rw e (elim (Bool-cases (is_eligible opts t)) [
          | inr f ↦ rw f (pass f)
          | inl f ↦ rw f (elim (Bool-cases (save_queue w (before ++ (started_in r t ∷ rest))).1) [
            | inl s ↦ rw s (next e f s)
            | inr s ↦ rw s (fault s)
          ])
        ])
      ]

  end_task-id : (now : String) (a : Validated) (t : IngestTask) → (end_task now a t).id ≡ t.id
  unfolding end_task
  end_task-id now (invalid reason) t = refl
  end_task-id now (valid v) t = refl

  end_task-finished :
      (now : String) (a : Validated) (t : IngestTask) → is_pending (end_task now a t).status ≡ false
  unfolding end_task
  end_task-finished now (invalid reason) t = refl
  end_task-finished now (valid v) t = refl

  ids-moved :
      (before : List IngestTask) (t u : IngestTask) (rest : List IngestTask)
      → u.id ≡ t.id
      → ids (before ++ u ∷ []) ++ ids rest ≡ ids before ++ ids (t ∷ rest)
  ids-moved before t u rest e =
      rw (map-append, append_assoc) (ap (λ i. ids before ++ (i ∷ ids rest)) e)

  -- The loop keeps the tasks and their order.
  pub run_tasks-ids :
      (all : List String) (before rest : List IngestTask) (w : World) (r : RunResult)
      → ids before ++ ids rest ≡ all
      → Ends (λ tasks r'. ids tasks ≡ all) (run_tasks opts clock validator before rest w r)
  unfolding run_tasks
  run_tasks-ids all before [] w r h = rw (append-nil) at h
  run_tasks-ids all before (t ∷ rest) w r h =
      run_tasks_round (Ends (λ tasks r'. ids tasks ≡ all)) before t rest w r
        (λ e. map-append _ before (t ∷ rest) ∙ h)
        (λ e. run_tasks-ids all (before ++ t ∷ []) rest w r (ids-moved before t t rest refl ∙ h))
        (λ e f s.
          run_tasks-ids all (before ++ ended_in r t ∷ []) rest _ _
            (ids-moved before t (ended_in r t) rest (end_task-id _ _ _) ∙ h))
        (λ e. tt)

  -- With no limit it leaves no task pending.
  pub run_tasks-none_pending :
      (before rest : List IngestTask) (w : World) (r : RunResult)
      → opts.max_tasks ≡ 0
      → All (λ t. is_pending t.status ≡ false) before
      → Ends
          (λ tasks r'. All (λ t. is_pending t.status ≡ false) tasks)
          (run_tasks opts clock validator before rest w r)
  unfolding run_tasks
  run_tasks-none_pending before [] w r z h = h
  run_tasks-none_pending before (t ∷ rest) w r z h =
      run_tasks_round (Ends (λ tasks r'. All (λ t. is_pending t.status ≡ false) tasks)) before t
        rest w r (λ e. absurd (ground (arith, e, z)))
        (λ e.
          run_tasks-none_pending (before ++ t ∷ []) rest w r z
            (All-append _ before _ h (ground (arith, e), tt)))
        (λ e f s.
          run_tasks-none_pending (before ++ ended_in r t ∷ []) rest _ _ z
            (All-append _ before _ h (end_task-finished _ _ _, tt)))
        (λ e. tt)

-- The counters tell what became of the tasks.
abbrev pub dones : List IngestTask → ℕ
dones = count_if (λ t. is_done t.status)

pub record Tallied (opts : RunOptions) (total : ℕ) (tasks : List IngestTask) (r : RunResult)
    : Type 0 where
  pub sum : r.processed ≡ r.done + r.failed
  pub skips : r.skipped ≤ r.done
  pub within : (opts.max_tasks ≡ 0) ⊎ (r.processed ≤ opts.max_tasks)
  pub grown : dones tasks ≡ total + r.done

dones-append : (xs ys : List IngestTask) → dones (xs ++ ys) ≡ dones xs + dones ys
dones-append [] ys = omega arith
dones-append (x ∷ xs) ys = omega (arith, dones-append xs ys)

module _ (opts : RunOptions) (clock : ℕ → String) (validator : ℕ → IngestTask → Validated) where
  Tallied-pass :
      (total : ℕ) (before : List IngestTask) (t : IngestTask) (rest : List IngestTask)
      (r : RunResult)
      → Tallied opts total (before ++ (t ∷ rest)) r
      → Tallied opts total ((before ++ t ∷ []) ++ rest) r
  Tallied-pass total before t rest r h = rw append_assoc h

  Tallied-next :
      (total : ℕ) (before : List IngestTask) (t : IngestTask) (rest : List IngestTask)
      (r : RunResult) (a : Validated) (now later : String)
      → limit_reached opts r ≡ false
      → is_eligible opts t ≡ true
      → Tallied opts total (before ++ (t ∷ rest)) r
      → Tallied opts total
          ((before ++ end_task now a (start_task later t) ∷ []) ++ rest)
          (count_task a r)
  unfolding end_task count_task
  Tallied-next total before t rest r (invalid reason) now later e f h =
      let u = end_task now (invalid reason) (start_task later t) in
      ground (
        arith,
        dones-append before (t ∷ rest),
        dones-append (before ++ u ∷ []) rest,
        dones-append before (u ∷ []),
      )
  Tallied-next total before t rest r (valid v) now later e f h =
      let u = end_task now (valid v) (start_task later t) in
      ground (
        arith,
        dones-append before (t ∷ rest),
        dones-append (before ++ u ∷ []) rest,
        dones-append before (u ∷ []),
      )

  pub run_tasks-Tallied :
      (total : ℕ) (before rest : List IngestTask) (w : World) (r : RunResult)
      → Tallied opts total (before ++ rest) r
      → Ends (Tallied opts total) (run_tasks opts clock validator before rest w r)
  unfolding run_tasks
  run_tasks-Tallied total before [] w r h = rw append-nil at h
  run_tasks-Tallied total before (t ∷ rest) w r h =
      run_tasks_round opts clock validator (Ends (Tallied opts total)) before t rest w r (λ e. h)
        (λ e.
          run_tasks-Tallied total (before ++ t ∷ []) rest w r
            (Tallied-pass total before t rest r h))
        (λ e f s.
          run_tasks-Tallied total _ rest _ _ (Tallied-next total before t rest r _ _ _ e f h))
        (λ e. tt)
