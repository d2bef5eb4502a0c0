-- ===== src/Ingest/Tests.antt =====
-- A queue of two tasks.
use knowlega.Base.{ℕ, ◌≡◌, refl, true, false, some, String, [], ◌∷◌, ◌==◌, not-elem_iff}
use knowlega.Base.Text.{trim_space}
use knowlega.Ingest.Queue.{
  IngestTask, IngestQueue, processing, World, stored, ok, Files, Result, save_queue,
}
use knowlega.Ingest.Run.{RunOptions, Validated, valid, RunResult, run_ingest_queue}
use knowlega.Ingest.Edit.{
  QueueOptions, new_task, queue_ingest_source, find_source, recover_processing,
}
use knowlega.Ingest.RunLaws.{ids, dones, Tallied}
use knowlega.Ingest.RunEnds.{Idle, run_complete, run-Tallied}
use knowlega.Ingest.Recovery.{Recovered, recover_complete}
use knowlega.Ingest.EditLaws.{DistinctIds, Asked, Tracks, queue-Tracks}

abbrev opts : RunOptions
opts = record { project_path = "p"; max_tasks = 0; retry_failed = false; keep_done = true }

abbrev first : IngestTask
first = new_task "t0" "a" "/a" "A" "ha"

abbrev second : IngestTask
second = record (new_task "t0" "b" "/b" "B" "hb") { status = processing }

abbrev queue : IngestQueue
queue = record { version = 1; tasks = first ∷ second ∷ [] }

abbrev world : World
world = record { queue_file = stored queue; save_faults = [] }

abbrev clock : ℕ → String
clock n = "now"

abbrev accepts : ℕ → IngestTask → Validated
accepts n t = valid (record { raw_path = "raw"; files = "f" ∷ []; skipped = false; sha256 = "s" })

abbrev of_result : Result RunResult → RunResult
of_result (ok r) = r
of_result _ = record { processed = 0; done = 0; failed = 0; skipped = 0; files = 0; tasks = [] }

abbrev answer : RunResult
unfolding run_ingest_queue trim_space
answer = of_result (run_ingest_queue opts true clock accepts world).1

named : ((trim_space "p" == "") ≡ false)
unfolding trim_space
named = refl

answered : (run_ingest_queue opts true clock accepts world).1 ≡ ok answer
unfolding run_ingest_queue trim_space
answered = refl

run_complete_example :
    (r : RunResult) × ((run_ingest_queue opts true clock accepts world).1 ≡ ok r)
    × Idle r.tasks
    × ((run_ingest_queue opts true clock accepts world).0.queue_file
        ≡ stored (record { version = 1; tasks = r.tasks }))
run_complete_example = run_complete opts clock accepts queue world named refl refl refl

run-Tallied_example :
    (ids answer.tasks ≡ ids queue.tasks) × Tallied opts (dones queue.tasks) answer.tasks answer
run-Tallied_example = run-Tallied opts clock accepts queue world answer named refl refl answered

recovered : (recover_processing true "t1" world).1 ≡ ok 1
unfolding recover_processing save_queue
recovered = refl

recover_complete_example :
    (q' : IngestQueue) × ((recover_processing true "t1" world).0.queue_file ≡ stored q')
    × Recovered queue.tasks 1 q'.tasks
recover_complete_example = recover_complete "t1" queue world 1 refl recovered

abbrev files : Files
files = record { abs = λ p. some p; hash = λ p. some "h"; stable_id = λ p. p }

abbrev new_source : QueueOptions
new_source = record { project_path = "p"; source_path = "/c"; title = "C" }

abbrev queued : IngestTask
queued = new_task "t1" "/c" "/c" "C" "h"

queued_task : (queue_ingest_source files "t1" new_source world).1 ≡ ok queued
unfolding queue_ingest_source trim_space find_source save_queue
queued_task = refl

distinct : DistinctIds (ids queue.tasks)
distinct = ((not-elem_iff "a" ("b" ∷ [])).0 refl, ((not-elem_iff "b" []).0 refl, tt))

queue-Tracks_example :
    (q' : IngestQueue) × ((queue_ingest_source files "t1" new_source world).0.queue_file
      ≡ stored q')
    × Tracks (Asked files new_source) queue.tasks queued q'.tasks
queue-Tracks_example =
    queue-Tracks files "t1" new_source world queue queued refl distinct queued_task
