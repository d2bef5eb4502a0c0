-- ===== src/Ingest/Edit.antt =====
-- The other operations on the queue: QueueIngestSource, RecoverProcessingIngestTasks and
-- RemoveQueuedSource.
use Prim.Native.String.{◌++◌ as join}
use text.Mathlib.Text.{starts_with}
use knowlega.Base.{
  ℕ, suc, String, Bool, not, ◌&&◌, ◌||◌, Option, none, some, List, [], ◌∷◌, ◌++◌, map, ◌==◌, ◌=ℕ◌,
  if◌then◌else◌, keep_if, count_if,
}
use knowlega.Base.Text.{trim_space}
use knowlega.Ingest.Queue.{
  IngestTask, pending, is_processing, Result, ok, err, no_project, no_source, bad_path,
  unreadable_source, not_saved, locked, escapes_mirror, not_removed, World, load_queue, save_queue,
  Files, same_source_path,
}

abbrev pub QueueOptions : Type 0
QueueOptions = record { project_path : String; source_path : String; title : String }

-- The task of a source that is put back, with its new hash and title.
unfoldable pub refresh : String → String → String → String → IngestTask → IngestTask
refresh now path title hash t = record t {
  source_path = path;
  title = title;
  sha256 = hash;
  status = pending;
  error = "";
  files = [];
  raw_path = "";
  updated_at = now;
  added_at = if t.added_at == "" then now else t.added_at;
}

abbrev pub new_task : String → String → String → String → String → IngestTask
new_task now id path title hash = record {
  id = id;
  source_path = path;
  title = title;
  status = pending;
  sha256 = hash;
  files = [];
  raw_path = "";
  error = "";
  retry_count = 0;
  added_at = now;
  updated_at = now;
}

-- What the search of the queue finds: a task that is processing, or the tasks with one put back.
pub data Found : Type 0 where
  missing : Found
  busy : IngestTask → Found
  refreshed : List IngestTask → IngestTask → Found

abbrev pub behind : IngestTask → Found → Found
behind t missing = missing
behind t (busy u) = busy u
behind t (refreshed tasks u) = refreshed (t ∷ tasks) u

unfoldable pub find_source :
    (IngestTask → Bool) → (IngestTask → IngestTask) → List IngestTask → Found
find_source same put [] = missing
find_source same put (t ∷ tasks) =
    let later = behind t (find_source same put tasks) in
    if not (same t)
    then later
    else if is_processing t.status
    then busy t
    else refreshed (put t ∷ tasks) (put t)

-- Save, and answer with the task.
abbrev pub saved_task : World × Bool → IngestTask → World × Result IngestTask
saved_task (w, saved) t = (w, if saved then ok t else err not_saved)

abbrev pub store_found : World → List IngestTask → IngestTask → Found → World × Result IngestTask
store_found w tasks t missing = saved_task (save_queue w (tasks ++ t ∷ [])) t
store_found w tasks t (busy u) = (w, ok u)
store_found w tasks t (refreshed tasks' u) = saved_task (save_queue w tasks') u

-- `abs` and `hash` are what filepath.Abs and the file's content have given.
unfoldable pub queue_source :
    Files → String → QueueOptions → String → String → World → World × Result IngestTask
unfolding refresh load_queue
queue_source fs now opts abs hash w = elim (load_queue w.queue_file) [
  | err e ↦ (w, err e)
  | ok q ↦
      let id = fs.stable_id abs in
      store_found w q.tasks (new_task now id abs opts.title hash) (
        find_source (λ t. t.id == id || same_source_path fs t.source_path abs)
          (refresh now abs opts.title hash) q.tasks)
]

unfoldable pub queue_ingest_source :
    Files → String → QueueOptions → World → World × Result IngestTask
unfolding queue_source
queue_ingest_source fs now opts w =
    if trim_space opts.project_path == ""
    then (w, err no_project)
    else if trim_space opts.source_path == ""
    then (w, err no_source)
    else elim (fs.abs opts.source_path) [
      | none ↦ (w, err bad_path)
      | some abs ↦ elim (fs.hash abs) [
        | none ↦ (w, err unreadable_source)
        | some hash ↦ queue_source fs now opts abs hash w
      ]
    ]

abbrev pub recover_task : String → IngestTask → IngestTask
recover_task now t =
    if is_processing t.status
    then record t {
      status = pending;
      error = "";
      retry_count = suc t.retry_count;
      updated_at = now;
    }
    else t

abbrev pub saved_count : World × Bool → ℕ → World × Result ℕ
saved_count (w, saved) n = (w, if saved then ok n else err not_saved)

-- `lock` is the project lock, taken or not. A save that fails makes the count an error's.
unfoldable pub recover_processing : Bool → String → World → World × Result ℕ
unfolding load_queue
recover_processing lock now w =
    if not lock then (w, err locked) else elim (load_queue w.queue_file) [
      | err e ↦ (w, err e)
      | ok q ↦
          let recovered = count_if (λ t. is_processing t.status) q.tasks in
          if recovered =ℕ 0
          then (w, ok 0)
          else saved_count (save_queue w (map (recover_task now) q.tasks)) recovered
    ]

abbrev pub is_removed : Files → String → String → IngestTask → Bool
is_removed fs task_id source_path t =
    t.id == task_id || (not (source_path == "") && same_source_path fs t.source_path source_path)

-- What is left to do of the source's file: nothing, or to remove it.
pub data Removal : Type 0 where
  queue_only remove_file : Removal

-- strings.HasPrefix(abs, root+"/"), or the root itself.
abbrev pub within_root : String → String → Bool
within_root root abs = abs == root || starts_with abs (join root "/")

-- `mirror` is the absolute path of raw/sources/qm in the project, `none` where filepath.Abs fails;
-- `removes` says of a path whether os.Remove removes it or finds it gone.
unfoldable pub remove_queued_source :
    Files
    → Bool
    → Option String
    → (String → Bool)
    → String
    → String
    → World
    → World × Result Removal
unfolding load_queue
remove_queued_source fs lock mirror removes task_id source_path w =
    if not lock then (w, err locked) else elim (load_queue w.queue_file) [
      | err e ↦ (w, err e)
      | ok q ↦
          let saved =
            save_queue w (keep_if (λ t. not (is_removed fs task_id source_path t)) q.tasks) in
          (
            saved.0,
            if not saved.1
                then err not_saved
                else if trim_space source_path == ""
                then ok queue_only
                else elim (fs.abs source_path) [
                  | none ↦ err bad_path
                  | some abs ↦ elim mirror [
                    | none ↦ err bad_path
                    | some root ↦
                        if not (within_root root abs)
                        then err escapes_mirror
                        else if removes abs
                        then ok remove_file
                        else err not_removed
                  ]
                ],
          )
    ]
