-- ===== src/Scan/Again.antt =====
-- Files that the watch file knows are not queued, and the next watch file knows all that was found.
use knowlega.Base.{
  ℕ, suc, ◌+◌, String, true, false, ◌≡◌, ◌⊎◌, refl, sym, subst, ◌∙◌, inl, inr, none, some, List, [],
  ◌∷◌, ◌++◌, ◌==◌, length, length-append, arith, All, Bool-cases, eq_iff, eq_refl,
}
use knowlega.Base.Maps.{lookup}
use knowlega.Scan.Watch.{
  WatchEntry, Watch, SourceFile, Found, Scan, was_ignored, is_supported_ext, note_unsupported,
  observe, observe_all, status_after, current_entries, next_watch,
}
use knowlega.Scan.Known.{Intact, file_of, observe_all-cons, status_of, Noted}

-- The watch file has the hash of the file, with a status that asks for nothing more.
abbrev pub Known : Watch → SourceFile → Type 0
Known watch f =
    (e : WatchEntry) × (lookup f.path watch ≡ some e)
    × (e.sha256 ≡ f.hash)
    × ((e.last_status ≡ "ignored")
        ⊎ ((is_supported_ext f.ext ≡ true) × (e.last_status ≡ "present"))
        ⊎ ((is_supported_ext f.ext ≡ false) × (e.last_status ≡ "unsupported")))

-- An observation that queues nothing and gives no event, and is counted.
abbrev Calm : Scan → Scan → Type 0
Calm s s' =
    (s'.paths ≡ s.paths)
    × (s'.events ≡ s.events)
    × (s'.skipped + length s'.unsupported ≡ suc (s.skipped + length s.unsupported))

observe-Calm :
    (watch : Watch) (f : SourceFile) (s : Scan) → Known watch f → Calm s (observe watch f none s)
unfolding observe note_unsupported
observe-Calm watch f s (e, found, same, inl i) =
    rw found (rw (same, i) (rw (eq_refl f.hash) (refl, refl, omega arith)))
observe-Calm watch f s (e, found, same, inr (inl (u, p))) =
    rw found (rw (same, p) (rw (eq_refl f.hash, u) (refl, refl, omega arith)))
observe-Calm watch f s (e, found, same, inr (inr (u, p))) = rw found (
    rw (same, p)
      (rw (eq_refl f.hash, u) (refl, refl, omega (arith, length-append s.unsupported _))))

abbrev pub Quiet : ℕ → Scan → Scan → Type 0
Quiet n s s' =
    (s'.paths ≡ s.paths)
    × (s'.events ≡ s.events)
    × (s'.skipped + length s'.unsupported ≡ n + (s.skipped + length s.unsupported))

pub observe_all-Quiet :
    (watch : Watch) (found : List Found) (s : Scan)
    → All Intact found
    → All (λ f. Known watch (file_of f)) found
    → Quiet (length found) s (observe_all watch found s)
unfolding observe_all
observe_all-Quiet watch [] s h k = (refl, refl, omega arith)
observe_all-Quiet watch (f ∷ found) s h k =
    let one = observe-Calm watch (file_of f) s k.0 in
    let rest = observe_all-Quiet watch found (observe watch (file_of f) none s) h.1 k.1 in
    subst (λ t. Quiet (suc (length found)) s t) (sym (observe_all-cons watch f found s h.0))
      (rest.0 ∙ one.0, rest.1 ∙ one.1, omega (arith, one, rest))

lookup-append :
    (p : String) (d e : Watch) (x : WatchEntry) → lookup p d ≡ some x → lookup p (d ++ e) ≡ some x
lookup-append p [] e x h = cc
lookup-append p ((k, v) ∷ d) e x h = elim (Bool-cases (p == k)) [
  | inl b ↦ rw b (rw b at h)
  | inr b ↦ rw b (lookup-append p d e x (rw b at h))
]

abbrev entry_of : String → Watch → String → String → String → WatchEntry
entry_of now watch p hash status = record {
  sha256 = hash;
  updated_at = now;
  last_status = status_after hash status (lookup p watch);
}

lookup-current_entries :
    (now : String) (watch : Watch) (current : List (String × (String × String)))
    (p hash status : String)
    → lookup p current ≡ some (hash, status)
    → lookup p (current_entries now watch current) ≡ some (entry_of now watch p hash status)
unfolding current_entries
lookup-current_entries now watch [] p hash status h = cc
lookup-current_entries now watch ((k, (g, st)) ∷ current) p hash status h =
    elim (Bool-cases (p == k)) [
      | inl b ↦
          let same_hash : g ≡ hash = ground (arith, h, b) in
          let same_status : st ≡ status = ground (arith, h, b) in
          rw b (rw ((eq_iff p k).0 b, same_hash, same_status) refl)
      | inr b ↦ rw b (lookup-current_entries now watch current p hash status (rw b at h))
    ]

-- The next watch file knows what was noted.
Noted-Known :
    (now : String) (watch : Watch) (current : List (String × (String × String))) (f : Found)
    → Noted watch current f
    → Known (next_watch now watch current) (file_of f)
unfolding next_watch
Noted-Known now watch current f h =
    let file = file_of f in
    (
      entry_of now watch file.path file.hash (status_of watch file),
      lookup-append file.path (current_entries now watch current) _ _
          (lookup-current_entries now watch current file.path file.hash (status_of watch file) h),
      refl,
      elim (Bool-cases (was_ignored file.hash (lookup file.path watch))) [
        | inl i ↦ inl (rw i refl)
        | inr i ↦ rw i (elim (Bool-cases (is_supported_ext file.ext)) [
          | inl u ↦ rw u (inr (inl (refl, refl)))
          | inr u ↦ rw u (inr (inr (refl, refl)))
        ])
      ],
    )

pub All-Known :
    (now : String) (watch : Watch) (current : List (String × (String × String)))
    (found : List Found)
    → All (Noted watch current) found
    → All (λ f. Known (next_watch now watch current) (file_of f)) found
All-Known now watch current [] h = tt
All-Known now watch current (f ∷ found) h =
    (Noted-Known now watch current f h.0, All-Known now watch current found h.1)
