-- ===== src/Scan/Tests.antt =====
-- A directory with two files and an archive.
use knowlega.Base.{ℕ, true, Option, none, some, List, [], ◌∷◌, ◌≡◌, refl, length}
use knowlega.Base.Text.{trim_space}
use knowlega.Ingest.Queue.{World, absent, Files, save_queue}
use knowlega.Ingest.Edit.{find_source}
use knowlega.Scan.Watch.{SourceFile, Found, archived, plain, start, observe_all}
use knowlega.Scan.Run.{
  no_watch, watching, ScanResult, scan_raw_sources, ignore_raw_source, original,
}
use knowlega.Scan.Twice.{watch_after, Idle, scan_again}

abbrev files : Files
files = record { abs = λ p. some p; hash = λ p. some "h"; stable_id = λ p. p }

abbrev note : SourceFile
note = record { abs = "/p/raw/sources/a.md"; path = "raw/sources/a.md"; ext = ".md"; hash = "h1" }

abbrev image : SourceFile
image = record {
  abs = "/p/raw/sources/b.png";
  path = "raw/sources/b.png";
  ext = ".png";
  hash = "h2";
}

abbrev paper : SourceFile
paper = record {
  abs = "/p/raw/sources/c.pdf";
  path = "raw/sources/c.pdf";
  ext = ".pdf";
  hash = "h3";
}

abbrev found : List Found
found = archived paper "h3" (some ("t", "t")) ∷ plain note ∷ plain image ∷ []

abbrev world : World
world = record { queue_file = absent; save_faults = [] }

abbrev result : Option ScanResult → ℕ × ℕ
result none = (0, 0)
result (some r) = (r.queued, length r.events)

first_scan :
    result (scan_raw_sources files "t0" "/p" true true (some found) no_watch world).1 ≡ (2, 3)
unfolding scan_raw_sources trim_space find_source save_queue
first_scan = refl

broken_archive : (observe_all [] (archived paper "h4" none ∷ []) start).paths ≡ []
unfolding observe_all
broken_archive = refl

ignored :
    (observe_all
      (("raw/sources/a.md", record { sha256 = "h1"; updated_at = "t"; last_status = "ignored" })
        ∷ [])
      (plain note ∷ [])
      start).paths
    ≡ []
unfolding observe_all
ignored = refl

ignore_note :
    ignore_raw_source "t" "raw/sources/a.md" true (original "raw/sources/a.md" "h1") no_watch ≡ (
      watching (
          ("raw/sources/a.md", record { sha256 = "h1"; updated_at = "t"; last_status = "ignored" })
          ∷ []),
      true,
    )
unfolding ignore_raw_source trim_space
ignore_note = refl

scan_again_example : Idle 3 world (
    scan_raw_sources files "t1" "/p" true true
      (some found)
      (watching (watch_after "t0" [] found))
      world)
scan_again_example =
    scan_again files "t0" "t1" "/p" [] found world (unfold trim_space in refl)
      ((refl, refl), (tt, (tt, tt))) (refl, (refl, (refl, tt)))
