-- ===== src/Scan/Run.antt =====
-- The whole of ScanRawSources, over the world of the queue and the watch file; and ignoreRawSource.
use knowlega.Base.{
  ℕ, ◌+◌, String, Bool, true, false, not, Option, none, some, List, [], ◌∷◌, ◌++◌, ◌==◌,
  if◌then◌else◌,
}
use knowlega.Base.Maps.{set}
use knowlega.Base.Text.{trim_space}
use knowlega.Scheduler.Texts.{sort_texts}
use knowlega.Ingest.Queue.{IngestTask, is_pending, World, Files, ok, err}
use knowlega.Ingest.Edit.{queue_ingest_source}
use knowlega.Scan.Watch.{
  WatchEntry, Watch, Event, Found, Scan, start, observe_all, deleted_events, next_watch,
}

-- What .kbcore/source-watch.json holds: nothing yet, or what cannot be read, or a watch.
pub data WatchFile : Type 0 where
  no_watch broken_watch : WatchFile
  watching : Watch → WatchFile

abbrev pub load_watch : WatchFile → Option Watch
load_watch no_watch = some []
load_watch broken_watch = none
load_watch (watching watch) = some watch

pub record ScanResult : Type 0 where
  pub queued : ℕ
  pub skipped : ℕ
  pub tasks : List IngestTask
  pub events : List Event
  pub unsupported : List (String × String)

abbrev pub nothing_found : ScanResult
nothing_found = record { queued = 0; skipped = 0; tasks = []; events = []; unsupported = [] }

abbrev pub result_of : Scan → ScanResult
result_of s = record {
  queued = 0;
  skipped = s.skipped;
  tasks = [];
  events = s.events;
  unsupported = s.unsupported;
}

-- A task that is processing is counted as skipped.
abbrev pub count_queued : IngestTask → ScanResult → ScanResult
count_queued t r =
    if is_pending t.status
    then record r { queued = r.queued + 1; tasks = r.tasks ++ t ∷ [] }
    else record r { skipped = r.skipped + 1 }

-- The paths are queued one after the other; the first error ends the scan.
unfoldable pub queue_paths :
    Files → String → String → List String → ScanResult → World → World × Option ScanResult
unfolding queue_ingest_source
queue_paths fs now project [] r w = (w, some r)
queue_paths fs now project (path ∷ paths) r w =
    let (w', answer) =
      queue_ingest_source fs now (record { project_path = project; source_path = path; title = "" })
        w in
    elim answer [
      | err e ↦ (w', none)
      | ok t ↦ queue_paths fs now project paths (count_queued t r) w'
    ]

-- The events of what is gone, and the save of the watch, which may fail.
abbrev pub end_scan :
    String
    → Bool
    → Watch
    → Scan
    → WatchFile
    → World × Option ScanResult
    → (World × WatchFile) × Option ScanResult
end_scan now saves watch s file (w, none) = ((w, file), none)
end_scan now saves watch s file (w, some r) =
    if saves
    then (
      (w, watching (next_watch now watch s.current)),
      some (record r { events = r.events ++ deleted_events s.current watch }),
    )
    else ((w, file), none)

abbrev pub scan_watch :
    Files
    → String
    → String
    → Bool
    → Option (List Found)
    → Watch
    → WatchFile
    → World
    → (World × WatchFile) × Option ScanResult
scan_watch fs now project saves none watch file w = ((w, file), none)
scan_watch fs now project saves (some found) watch file w =
    let s = observe_all watch found start in
    end_scan now saves watch s file
      (queue_paths fs now project (sort_texts s.paths) (result_of s) w)

-- `exists` says whether raw/sources is there, `saves` whether the watch file can be written.
unfoldable pub scan_raw_sources :
    Files
    → String
    → String
    → Bool
    → Bool
    → Option (List Found)
    → WatchFile
    → World
    → (World × WatchFile) × Option ScanResult
unfolding observe_all queue_paths deleted_events next_watch sort_texts
scan_raw_sources fs now project exists saves found file w =
    if trim_space project == ""
    then ((w, file), none)
    else if not exists
    then ((w, file), some nothing_found)
    else elim (load_watch file) [
      | none ↦ ((w, file), none)
      | some watch ↦ scan_watch fs now project saves found watch file w
    ]

-- What ignoreRawSource finds: no file of that path, an error, or the path of the original and the
-- hash of its content.
pub data Original : Type 0 where
  no_file unreadable : Original
  original : String → String → Original

abbrev pub ignored_entry : String → String → WatchEntry
ignored_entry now hash = record { sha256 = hash; updated_at = now; last_status = "ignored" }

abbrev pub save_ignored : String → Bool → String → String → Watch → WatchFile → WatchFile × Bool
save_ignored now saves path hash watch file =
    if saves then (watching (set path (ignored_entry now hash) watch), true) else (file, false)

unfoldable pub ignore_raw_source : String → String → Bool → Original → WatchFile → WatchFile × Bool
ignore_raw_source now raw saves no_file file = (file, true)
ignore_raw_source now raw saves unreadable file = (file, trim_space raw == "")
ignore_raw_source now raw saves (original path hash) file =
    if trim_space raw == "" then (file, true) else elim (load_watch file) [
      | none ↦ (file, false)
      | some watch ↦ save_ignored now saves path hash watch file
    ]
