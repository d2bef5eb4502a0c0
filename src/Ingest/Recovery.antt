-- ===== src/Ingest/Recovery.antt =====
-- After a restart no task is left processing.
use knowlega.Base.{
  ℕ, ◌+◌, String, ◌≡◌, refl, inl, inr, Bool, true, false, List, [], ◌∷◌, map, arith, ◌=ℕ◌,
  if◌then◌else◌, All, count_if, Bool-cases,
}
use knowlega.Ingest.Queue.{
  IngestTask, is_pending, is_processing, ok, stored, World, IngestQueue, load_queue, save_queue,
  save_queue-stored,
}
use knowlega.Ingest.Edit.{recover_task, saved_count, recover_processing}
use knowlega.Ingest.RunLaws.{ids}

abbrev pub interrupted : List IngestTask → ℕ
interrupted = count_if (λ t. is_processing t.status)

abbrev pub waiting : List IngestTask → ℕ
waiting = count_if (λ t. is_pending t.status)

abbrev pub NoneProcessing : List IngestTask → Type 0
NoneProcessing = All (λ t. is_processing t.status ≡ false)

recover_task-laws :
    (now : String) (tasks : List IngestTask)
    → (ids (map (recover_task now) tasks) ≡ ids tasks)
      × NoneProcessing (map (recover_task now) tasks)
      × (waiting (map (recover_task now) tasks) ≡ waiting tasks + interrupted tasks)
recover_task-laws now [] = (refl, tt, omega arith)
recover_task-laws now (t ∷ tasks) =
    let (same, idle, sum) = recover_task-laws now tasks in
    (ground (arith, same), (ground arith, idle), ground (arith, sum))

interrupted-zero : (tasks : List IngestTask) → interrupted tasks ≡ 0 → NoneProcessing tasks
interrupted-zero [] h = tt
interrupted-zero (t ∷ tasks) h = (ground arith, interrupted-zero tasks (ground arith))

recover-stored :
    (now : String) (q : IngestQueue) (w : World)
    → w.queue_file ≡ stored q
    → recover_processing true now w ≡ (
        if interrupted q.tasks =ℕ 0
        then (w, ok 0)
        else saved_count (save_queue w (map (recover_task now) q.tasks)) (interrupted q.tasks))
unfolding recover_processing load_queue
recover-stored now q w file = ground (arith, file)

-- What a recovery makes of the tasks.
abbrev pub Recovered : List IngestTask → ℕ → List IngestTask → Type 0
Recovered tasks n tasks' =
    (n ≡ interrupted tasks)
    × (ids tasks' ≡ ids tasks)
    × NoneProcessing tasks'
    × (waiting tasks' ≡ waiting tasks + n)

-- A recovery of a stored queue that answers a number has stored a queue of the same tasks in which
-- none is processing; the number is how many were, and as many more are pending.
pub recover_complete :
    (now : String) (q : IngestQueue) (w : World) (n : ℕ)
    → w.queue_file ≡ stored q
    → (recover_processing true now w).1 ≡ ok n
    → (q' : IngestQueue) × ((recover_processing true now w).0.queue_file ≡ stored q')
      × Recovered q.tasks n q'.tasks
recover_complete now q w n file out =
    rw (recover-stored now q w file) (elim (Bool-cases (interrupted q.tasks =ℕ 0)) [
      | inl z ↦ rw z (
        q,
        file,
        (
          ground (arith, recover-stored now q w file, z, out),
          refl,
          interrupted-zero q.tasks (ground (arith, z)),
          ground (arith, recover-stored now q w file, z, out),
        ),
      )
      | inr left ↦ rw left (elim (Bool-cases saved.1) [
        | inl s ↦
            let (same, idle, sum) = recover_task-laws now q.tasks in
            let counted : n ≡ interrupted q.tasks =
              ground (arith, recover-stored now q w file, left, s, out) in
            (
              record { version = 1; tasks = map (recover_task now) q.tasks },
              save_queue-stored w _ s,
              (counted, same, idle, ground (arith, sum, counted)),
            )
        | inr s ↦ absurd (ground (arith, recover-stored now q w file, left, s, out))
      ])
    ])
  where
    saved : World × Bool
    saved = save_queue w (map (recover_task now) q.tasks)
