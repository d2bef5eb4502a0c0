-- ===== src/Scan/Twice.antt =====
-- A scan of what the last one has found finds nothing new.
use knowlega.Base.{
  ℕ, ◌+◌, String, true, false, ◌≡◌, ◌⊎◌, refl, sym, ◌∙◌, inl, inr, Option, none, some, List, [],
  ◌∷◌, ◌==◌, is_some, length, arith, All, All-append, Bool-cases, eq_refl,
}
use knowlega.Base.Maps.{lookup}
use knowlega.Base.Text.{trim_space}
use knowlega.Scheduler.Texts.{sort_texts}
use knowlega.Ingest.Queue.{World, Files}
use knowlega.Scan.Watch.{
  WatchEntry, Watch, Found, Scan, start, observe_all, current_entries, gone_entries, next_watch,
  deleted_events,
}
use knowlega.Scan.Run.{WatchFile, watching, ScanResult, queue_paths, scan_watch, scan_raw_sources}
use knowlega.Scan.Known.{Intact, DistinctPaths, observe_all-Noted, is_some-observe_all}
use knowlega.Scan.Again.{Quiet, observe_all-Quiet, All-Known}

abbrev Current : Type 0
Current = List (String × (String × String))

-- A source of the watch file that is there, or is known to be gone.
abbrev Seen : Current → String × WatchEntry → Type 0
Seen current (path, e) = (is_some (lookup path current) ≡ true) ⊎ (e.last_status ≡ "deleted")

deleted_events-none :
    (current : Current) (watch : Watch)
    → All (Seen current) watch
    → deleted_events current watch ≡ []
unfolding deleted_events
deleted_events-none current [] h = refl
deleted_events-none current ((path, e) ∷ watch) (inl k, h) =
    rw k (deleted_events-none current watch h)
deleted_events-none current ((path, e) ∷ watch) (inr k, h) =
    rw k (elim (Bool-cases (is_some (lookup path current))) [
      | inl b ↦ rw b (deleted_events-none current watch h)
      | inr b ↦ rw b (deleted_events-none current watch h)
    ])

gone_entries-Seen :
    (now : String) (noted current : Current) (watch : Watch)
    → All (Seen current) (gone_entries now noted watch)
unfolding gone_entries
gone_entries-Seen now noted current [] = tt
gone_entries-Seen now noted current ((path, e) ∷ watch) =
    elim (Bool-cases (is_some (lookup path noted))) [
      | inl b ↦ rw b (gone_entries-Seen now noted current watch)
      | inr b ↦ rw b (inr refl, gone_entries-Seen now noted current watch)
    ]

-- Every path that is written down is found in `current`.
abbrev In : Current → String × (String × String) → Type 0
In current (path, v) = is_some (lookup path current) ≡ true

current_entries-Seen :
    (now : String) (watch : Watch) (noted current : Current)
    → All (In current) noted
    → All (Seen current) (current_entries now watch noted)
unfolding current_entries
current_entries-Seen now watch [] current h = tt
current_entries-Seen now watch ((path, (hash, status)) ∷ noted) current h =
    (inl h.0, current_entries-Seen now watch noted current h.1)

-- Two lists with the same paths.
All-In :
    (noted whole current : Current)
    → ((p : String) → is_some (lookup p whole) ≡ is_some (lookup p current))
    → ((p : String) → (is_some (lookup p noted) ≡ false) ⊎ (is_some (lookup p whole) ≡ true))
    → All (In current) noted
All-In [] whole current same within = tt
All-In ((path, v) ∷ noted) whole current same within = (
  sym (same path)
      ∙ elim (within path) [ inl h ↦ absurd (ground (arith, h, eq_refl path)) | inr h ↦ h ],
  All-In noted whole current same λ p. elim (within p) [
    | inr h ↦ inr h
    | inl h ↦ inl (elim (Bool-cases (p == path)) [
      | inl b ↦ absurd (ground (arith, h, b))
      | inr b ↦ rw b at h
    ])
  ],
)

All-In_self :
    (whole current : Current)
    → ((p : String) → is_some (lookup p whole) ≡ is_some (lookup p current))
    → All (In current) whole
All-In_self whole current same =
    All-In whole whole current same
      λ p. elim (Bool-cases (is_some (lookup p whole))) [ inl h ↦ inr h | inr h ↦ inl h ]

abbrev scanned : Watch → List Found → Scan
scanned watch found = observe_all watch found start

-- The watch file that a scan leaves.
abbrev pub watch_after : String → Watch → List Found → Watch
watch_after now watch found = next_watch now watch (scanned watch found).current

module _ (now : String) (watch : Watch) (found : List Found) (intact : All Intact found) where
  again-Quiet :
      DistinctPaths found → Quiet (length found) start (scanned (watch_after now watch found) found)
  again-Quiet distinct = observe_all-Quiet (watch_after now watch found) found start intact (
      All-Known now watch (scanned watch found).current found
        (observe_all-Noted watch found start intact distinct))

  again-deleted :
      deleted_events
        (scanned (watch_after now watch found) found).current
        (watch_after now watch found)
      ≡ []
  unfolding next_watch
  again-deleted =
      let noted = (scanned watch found).current in
      let current = (scanned (watch_after now watch found) found).current in
      deleted_events-none current (watch_after now watch found) (
        All-append (Seen current) (current_entries now watch noted) (gone_entries now noted watch)
          (current_entries-Seen now watch noted current (
            All-In_self noted current λ p.
              is_some-observe_all watch found start p intact
              ∙ sym (is_some-observe_all (watch_after now watch found) found start p intact)))
          (gone_entries-Seen now noted current watch))

-- The scan succeeded, changed nothing of the queue, queued nothing and gave no event; all `n` files
-- are counted as skipped or unsupported.
abbrev pub Idle : ℕ → World → (World × WatchFile) × Option ScanResult → Type 0
Idle n w (state, none) = ⊥
Idle n w ((w', file), some r) =
    (w' ≡ w)
    × (r.queued ≡ 0)
    × (r.tasks ≡ [])
    × (r.events ≡ [])
    × (r.skipped + length r.unsupported ≡ n)

scan_watch-Idle :
    (fs : Files) (now project : String) (watch : Watch) (file : WatchFile) (found : List Found)
    (w : World)
    → Quiet (length found) start (scanned watch found)
    → deleted_events (scanned watch found).current watch ≡ []
    → Idle (length found) w (scan_watch fs now project true (some found) watch file w)
unfolding queue_paths sort_texts
scan_watch-Idle fs now project watch file found w (no_paths, no_events, count) none_gone =
    rw no_paths (rw (none_gone, no_events) (refl, refl, refl, refl, omega (arith, count)))

-- Where all archives are in order and no two files have the same path, a scan of the same files with
-- the watch file that a scan has left, at any later time, succeeds if it can save, changes nothing of
-- the queue, queues nothing and gives no event.
pub scan_again :
    (fs : Files) (now now' project : String) (watch : Watch) (found : List Found) (w : World)
    → (trim_space project == "") ≡ false
    → All Intact found
    → DistinctPaths found
    → Idle (length found) w (
        scan_raw_sources fs now' project true true
          (some found)
          (watching (watch_after now watch found))
          w)
unfolding scan_raw_sources
scan_again fs now now' project watch found w named intact distinct = rw named (
    scan_watch-Idle fs now' project (watch_after now watch found)
      (watching (watch_after now watch found)) found w (again-Quiet now watch found intact distinct)
      (again-deleted now watch found intact))
