-- ===== src/Ingest/Queue.antt =====
-- The queue, its file, and what the file system answers.
use knowlega.Base.{
  ℕ, String, Bool, true, false, Option, none, some, List, [], ◌∷◌, ◌≡◌, arith, ◌==◌, ◌=ℕ◌,
  if◌then◌else◌,
}

pub data TaskStatus : Type 0 where
  pending processing done failed : TaskStatus

abbrev pub is_pending : TaskStatus → Bool
is_pending TaskStatus.pending = true
is_pending _ = false

abbrev pub is_processing : TaskStatus → Bool
is_processing TaskStatus.processing = true
is_processing _ = false

abbrev pub is_done : TaskStatus → Bool
is_done TaskStatus.done = true
is_done _ = false

abbrev pub is_failed : TaskStatus → Bool
is_failed TaskStatus.failed = true
is_failed _ = false

pub record IngestTask : Type 0 where
  pub id : String
  pub source_path : String
  pub title : String
  pub status : TaskStatus
  pub sha256 : String
  pub files : List String
  pub raw_path : String
  pub error : String
  pub retry_count : ℕ
  pub added_at : String
  pub updated_at : String

pub record IngestQueue : Type 0 where
  pub version : ℕ
  pub tasks : List IngestTask

pub data Error : Type 0 where
  no_project no_source no_validator bad_path unreadable_source unreadable_queue malformed_queue :
      Error
  not_saved locked escapes_mirror not_removed : Error

pub data Result (A : Type 0) : Type 0 where
  ok : A → Result A
  err : Error → Result A

-- What .kbcore/ingest-queue.json holds, as os.ReadFile and json.Unmarshal read it.
pub data QueueFile : Type 0 where
  absent unreadable blank malformed : QueueFile
  stored : IngestQueue → QueueFile

-- `save_faults` says of each coming save whether it fails; after the last they succeed.
pub record World : Type 0 where
  pub queue_file : QueueFile
  pub save_faults : List Bool

abbrev pub empty_queue : IngestQueue
empty_queue = record { version = 1; tasks = [] }

abbrev pub version_or_one : IngestQueue → IngestQueue
version_or_one q = record q { version = if q.version =ℕ 0 then 1 else q.version }

unfoldable pub load_queue : QueueFile → Result IngestQueue
load_queue absent = ok empty_queue
load_queue unreadable = err unreadable_queue
load_queue blank = ok empty_queue
load_queue malformed = err malformed_queue
load_queue (stored q) = ok (version_or_one q)

-- The file is written beside its place and renamed, so a save that fails leaves it as it was.
abbrev pub write_queue : List Bool → List IngestTask → World
write_queue faults tasks = record {
  queue_file = stored (record { version = 1; tasks = tasks });
  save_faults = faults;
}

unfoldable pub save_queue : World → List IngestTask → World × Bool
save_queue w tasks = elim w.save_faults [
  | [] ↦ (write_queue [] tasks, true)
  | fails ∷ faults ↦
      if fails then (record w { save_faults = faults }, false) else (write_queue faults tasks, true)
]

-- filepath.Abs (`none` where it fails), the SHA256 of a file's content (`none` where it cannot be
-- read), and core.StableID("ingest-task", path). On the systems that the backend runs on a path is
-- its own slash form.
pub record Files : Type 0 where
  pub abs : String → Option String
  pub hash : String → Option String
  pub stable_id : String → String

abbrev pub same_abs : Option String → Option String → String → String → Bool
same_abs (some a) (some b) p q = a == b
same_abs none b p q = p == q
same_abs (some a) none p q = p == q

abbrev pub same_source_path : Files → String → String → Bool
same_source_path fs p q = same_abs (fs.abs p) (fs.abs q) p q

pub save_queue-stored :
    (w : World) (tasks : List IngestTask)
    → (save_queue w tasks).1 ≡ true
    → (save_queue w tasks).0.queue_file ≡ stored (record { version = 1; tasks = tasks })
unfolding save_queue
save_queue-stored w tasks h = ground arith
