-- ===== src/Ingest/RunEnds.antt =====
-- How a run of the queue ends.
use mathlib.Core.Bool.{false≢true}
use knowlega.Base.{
  ℕ, String, ◌≡◌, refl, sym, ap, ◌∙◌, inl, inr, Bool, true, false, none, some, List, [], ◌∷◌, ◌++◌,
  arith, ◌==◌, if◌then◌else◌, All, keep_if, Bool-cases,
}
use knowlega.Base.Text.{trim_space}
use knowlega.Ingest.Queue.{
  IngestTask, is_pending, Result, ok, stored, World, IngestQueue, save_queue, write_queue,
}
use knowlega.Ingest.Run.{
  RunOptions, Validated, RunResult, no_result, run_tasks, prune_done_tasks, finish_run,
  run_ingest_queue,
}
use knowlega.Ingest.RunLaws.{
  ids, Out, Ends, started_in, run_tasks_round, run_tasks-ids, run_tasks-none_pending, dones,
  Tallied, run_tasks-Tallied,
}

-- A run with no save faults ahead.
save_queue-clean :
    (w : World) (tasks : List IngestTask)
    → w.save_faults ≡ []
    → save_queue w tasks ≡ (write_queue [] tasks, true)
unfolding save_queue
save_queue-clean w tasks h = rw (h, save_queue)

module _ (opts : RunOptions) (clock : ℕ → String) (validator : ℕ → IngestTask → Validated) where
  abbrev Reaches : Out → Type 0
  Reaches (w, none) = ⊥
  Reaches (w, some (tasks, r)) = w.save_faults ≡ []

  run_tasks-Reaches :
      (before rest : List IngestTask) (w : World) (r : RunResult)
      → w.save_faults ≡ []
      → Reaches (run_tasks opts clock validator before rest w r)
  unfolding run_tasks
  run_tasks-Reaches before [] w r clean = clean
  run_tasks-Reaches before (t ∷ rest) w r clean =
      let tasks = before ++ (started_in opts clock validator r t ∷ rest) in
      let saved = save_queue-clean w tasks clean in
      run_tasks_round opts clock validator Reaches before t rest w r (λ e. clean)
        (λ e. run_tasks-Reaches (before ++ t ∷ []) rest w r clean)
        (λ e f s. run_tasks-Reaches _ rest _ _ (ap (λ (o : World × Bool). o.0.save_faults) saved))
        (λ s. absurd (false≢true (sym s ∙ ap (λ (o : World × Bool). o.1) saved)))

  abbrev run : World → World × Result RunResult
  run = run_ingest_queue opts true clock validator

  -- A run over a stored queue is its loop and what comes after.
  run-stored :
      (q : IngestQueue) (w : World)
      → (trim_space opts.project_path == "") ≡ false
      → w.queue_file ≡ stored q
      → run w ≡ finish_run opts (run_tasks opts clock validator [] q.tasks w no_result)
  unfolding run_ingest_queue
  run-stored q w named file = ground (arith, named, file)

keep_if-All :
    (P : IngestTask → Type 0) (p : IngestTask → Bool) (tasks : List IngestTask)
    → All P tasks
    → All P (keep_if p tasks)
keep_if-All P p [] h = tt
keep_if-All P p (t ∷ tasks) h = elim (Bool-cases (p t)) [
  | inl e ↦ rw e (h.0, keep_if-All P p tasks h.1)
  | inr e ↦ rw e (keep_if-All P p tasks h.1)
]

abbrev pub Idle : List IngestTask → Type 0
Idle = All (λ t. is_pending t.status ≡ false)

-- What is kept after the loop.
abbrev kept : RunOptions → List IngestTask → List IngestTask
kept opts tasks = if opts.keep_done then tasks else prune_done_tasks tasks

kept-Idle : (opts : RunOptions) (tasks : List IngestTask) → Idle tasks → Idle (kept opts tasks)
unfolding prune_done_tasks
kept-Idle opts tasks h = elim (Bool-cases opts.keep_done) [
  | inl e ↦ rw e h
  | inr e ↦ rw e (keep_if-All _ _ tasks h)
]

finish_run-clean :
    (opts : RunOptions) (w : World) (tasks : List IngestTask) (r : RunResult)
    → w.save_faults ≡ []
    → finish_run opts (w, some (tasks, r))
      ≡ (write_queue [] (kept opts tasks), ok (record r { tasks = kept opts tasks }))
finish_run-clean opts w tasks r clean =
    let saved = save_queue-clean w (kept opts tasks) clean in unfold finish_run in rw saved

module _ (opts : RunOptions) (clock : ℕ → String) (validator : ℕ → IngestTask → Validated) where
  finish_complete :
      (o : Out)
      → Reaches opts clock validator o
      → Ends (λ tasks r. Idle tasks) o
      → (r : RunResult) × ((finish_run opts o).1 ≡ ok r)
        × Idle r.tasks
        × ((finish_run opts o).0.queue_file ≡ stored (record { version = 1; tasks = r.tasks }))
  finish_complete (w, none) reach idle = absurd reach
  finish_complete (w, some (tasks, r)) reach idle =
      let e = finish_run-clean opts w tasks r reach in
      (record r { tasks = kept opts tasks }, rw e, kept-Idle opts tasks idle, rw e)

  -- If no save fails, the project is named and no limit is set, then a run over a stored queue
  -- succeeds, leaves no task pending, and stores the tasks that it returns.
  pub run_complete :
      (q : IngestQueue) (w : World)
      → (trim_space opts.project_path == "") ≡ false
      → opts.max_tasks ≡ 0
      → w.queue_file ≡ stored q
      → w.save_faults ≡ []
      → (r : RunResult) × ((run_ingest_queue opts true clock validator w).1 ≡ ok r)
        × Idle r.tasks
        × ((run_ingest_queue opts true clock validator w).0.queue_file
            ≡ stored (record { version = 1; tasks = r.tasks }))
  run_complete q w named unlimited file clean =
      rw (run-stored opts clock validator q w named file) (
        finish_complete _ (run_tasks-Reaches opts clock validator [] q.tasks w no_result clean)
          (run_tasks-none_pending opts clock validator [] q.tasks w no_result unlimited tt))

  finish-Tallied :
      (all : List String) (total : ℕ) (o : Out) (r : RunResult)
      → opts.keep_done ≡ true
      → Ends (λ tasks r'. ids tasks ≡ all) o
      → Ends (Tallied opts total) o
      → (finish_run opts o).1 ≡ ok r
      → (ids r.tasks ≡ all) × Tallied opts total r.tasks r
  unfolding finish_run
  finish-Tallied all total (w, none) r keep same tally out = absurd (ground arith)
  finish-Tallied all total (w, some (tasks, r')) r keep same tally out =
      elim (Bool-cases (save_queue w tasks).1) [
        | inl s ↦ ground (arith, keep, s, out, same)
        | inr s ↦ absurd (ground (arith, keep, s, out))
      ]

  -- Whichever saves fail, a run over a stored queue that succeeds and keeps the tasks that are done
  -- returns the same tasks in the same order; its processed tasks are those done and those failed,
  -- not more skipped than done, within a limit that is set; and as many tasks more are done.
  pub run-Tallied :
      (q : IngestQueue) (w : World) (r : RunResult)
      → (trim_space opts.project_path == "") ≡ false
      → opts.keep_done ≡ true
      → w.queue_file ≡ stored q
      → (run_ingest_queue opts true clock validator w).1 ≡ ok r
      → (ids r.tasks ≡ ids q.tasks) × Tallied opts (dones q.tasks) r.tasks r
  run-Tallied q w r named keep file out =
      finish-Tallied (ids q.tasks) (dones q.tasks) _ r keep
        (run_tasks-ids opts clock validator (ids q.tasks) [] q.tasks w no_result refl)
        (run_tasks-Tallied opts clock validator (dones q.tasks) [] q.tasks w no_result
          (ground arith))
        (rw (run-stored opts clock validator q w named file) at out)
