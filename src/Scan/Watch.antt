-- ===== src/Scan/Watch.antt =====
-- ScanRawSources: what is found on the disk is compared with the watch file, what is new or has
-- changed is queued, and the watch file is written anew. What the walk of the directory, the archives
-- and the hashes give is the list `found`, the archives first; `none` is an error of one of them.
use knowlega.Base.{
  ℕ, ◌+◌, String, Bool, false, not, ◌&&◌, ◌||◌, Option, none, some, List, [], ◌∷◌, ◌++◌, ◌==◌,
  if◌then◌else◌, is_some,
}
use Prim.Native.String.{◌++◌ as join}
use knowlega.Base.Maps.{lookup, set}

pub record WatchEntry : Type 0 where
  pub sha256 : String
  pub updated_at : String
  pub last_status : String

abbrev pub Watch : Type 0
Watch = List (String × WatchEntry)

pub record Event : Type 0 where
  pub path : String
  pub kind : String
  pub old_sha256 : String
  pub sha256 : String
  pub reason : String

-- A file, with its absolute path, its path in the project, its extension in small letters and the
-- hash of its content.
pub record SourceFile : Type 0 where
  pub abs : String
  pub path : String
  pub ext : String
  pub hash : String

-- An archived original comes with the hash of its metadata, and, if its content is another file, with
-- that one's hash and the hash of the metadata.
pub data Found : Type 0 where
  archived : SourceFile → String → Option (String × String) → Found
  plain : SourceFile → Found

-- The variables of the scan: `current` and `currentStatus` together, and the result.
pub record Scan : Type 0 where
  pub current : List (String × (String × String))
  pub paths : List String
  pub unsupported : List (String × String)
  pub events : List Event
  pub skipped : ℕ

abbrev pub start : Scan
start = record { current = []; paths = []; unsupported = []; events = []; skipped = 0 }

abbrev pub is_supported_ext : String → Bool
is_supported_ext ext = ext == ".txt" || ext == ".md" || ext == ".pdf" || ext == ".docx"

abbrev pub old_hash : Option WatchEntry → String
old_hash none = ""
old_hash (some e) = e.sha256

abbrev pub was_ignored : String → Option WatchEntry → Bool
was_ignored hash none = false
was_ignored hash (some e) = e.last_status == "ignored" && e.sha256 == hash

abbrev pub was_unsupported : String → Option WatchEntry → Bool
was_unsupported hash none = false
was_unsupported hash (some e) = e.sha256 == hash && e.last_status == "unsupported"

abbrev pub is_unchanged : String → Option WatchEntry → Bool
is_unchanged hash none = false
is_unchanged hash (some e) = e.sha256 == hash && not (e.last_status == "deleted")

abbrev pub event : String → String → String → String → String → Event
event path kind old hash reason = record {
  path = path;
  kind = kind;
  old_sha256 = old;
  sha256 = hash;
  reason = reason;
}

abbrev pub unsupported_reason : String → String
unsupported_reason ext = join "unsupported extension " ext

-- The file has the status; the closure `observe` from its first return on.
abbrev pub note : SourceFile → String → Scan → Scan
note f status s = record s { current = set f.path (f.hash, status) s.current }

unfoldable pub note_unsupported : Option WatchEntry → SourceFile → Scan → Scan
note_unsupported previous f s =
    let reason = unsupported_reason f.ext in
    let s' = record (note f "unsupported" s) {
      unsupported = s.unsupported ++ (f.path, reason) ∷ [];
    } in
    if was_unsupported f.hash previous
    then s'
    else record s' { events = s.events ++ event f.path "unsupported" "" f.hash reason ∷ [] }

-- A file that is to be queued, with its event.
abbrev pub note_queued : Event → SourceFile → Scan → Scan
note_queued e f s = record (note f "present" s) {
  paths = s.paths ++ f.abs ∷ [];
  events = s.events ++ e ∷ [];
}

abbrev pub note_skipped : SourceFile → Scan → Scan
note_skipped f s = record (note f "present" s) { skipped = s.skipped + 1 }

-- Whether a forced change is asked for, and its reason.
unfoldable pub observe : Watch → SourceFile → Option String → Scan → Scan
unfolding note_unsupported
observe watch f force s =
    let previous = lookup f.path watch in
    if was_ignored f.hash previous
    then note_skipped f s
    else if not (is_supported_ext f.ext)
    then note_unsupported previous f s
    else elim force [
      | some reason ↦ note_queued (event f.path "changed" (old_hash previous) f.hash reason) f s
      | none ↦
          if not (is_some previous)
          then note_queued (event f.path "added" "" f.hash "") f s
          else if is_unchanged f.hash previous
          then note_skipped f s
          else note_queued (event f.path "changed" (old_hash previous) f.hash "") f s
    ]

abbrev pub invalid_reason : String
invalid_reason = "immutable original SHA256 does not match metadata"

abbrev pub note_invalid : SourceFile → Scan → Scan
note_invalid f s = record (note f "invalid" s) {
  unsupported = s.unsupported ++ (f.path, invalid_reason) ∷ [];
  events = s.events ++ event f.path "invalid" "" f.hash invalid_reason ∷ [];
}

abbrev pub force_of : Option (String × String) → Option String
force_of none = none
force_of (some (actual, recorded)) =
    if actual == recorded
    then none
    else some "derived content SHA256 changed; re-extraction required"

unfoldable pub observe_found : Watch → Found → Scan → Scan
unfolding observe
observe_found watch (archived f recorded content) s =
    if f.hash == recorded then observe watch f (force_of content) s else note_invalid f s
observe_found watch (plain f) s = observe watch f none s

unfoldable pub observe_all : Watch → List Found → Scan → Scan
unfolding observe_found
observe_all watch [] s = s
observe_all watch (f ∷ found) s = observe_all watch found (observe_found watch f s)

-- The sources of the watch file that are gone; those known to be gone give no event.
unfoldable pub deleted_events : List (String × (String × String)) → Watch → List Event
deleted_events current [] = []
deleted_events current ((path, e) ∷ watch) =
    if not (is_some (lookup path current)) && not (e.last_status == "deleted")
    then event path "deleted" e.sha256 "" "" ∷ deleted_events current watch
    else deleted_events current watch

-- The next watch file: what is on the disk, and what is gone.
abbrev pub status_after : String → String → Option WatchEntry → String
status_after hash status previous = if was_ignored hash previous then "ignored" else status

unfoldable pub current_entries : String → Watch → List (String × (String × String)) → Watch
current_entries now watch [] = []
current_entries now watch ((path, (hash, status)) ∷ current) =
    (
      path,
      record {
        sha256 = hash;
        updated_at = now;
        last_status = status_after hash status (lookup path watch);
      },
    )
    ∷ current_entries now watch current

unfoldable pub gone_entries : String → List (String × (String × String)) → Watch → Watch
gone_entries now current [] = []
gone_entries now current ((path, e) ∷ watch) =
    if is_some (lookup path current)
    then gone_entries now current watch
    else (path, record e { last_status = "deleted"; updated_at = now })
      ∷ gone_entries now current watch

unfoldable pub next_watch : String → Watch → List (String × (String × String)) → Watch
unfolding current_entries gone_entries
next_watch now watch current = current_entries now watch current ++ gone_entries now current watch
