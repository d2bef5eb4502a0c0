-- ===== src/Scan/Known.antt =====
-- What the watch file knows of the files that a scan has found.
use knowlega.Base.{
  String, true, false, ◌||◌, ◌≡◌, refl, sym, ap, subst, ◌∙◌, inl, inr, none, some, List, [], ◌∷◌,
  ◌==◌, if◌then◌else◌, is_some, elem, arith, All, Bool-cases, eq_iff,
}
use knowlega.Base.Maps.{lookup, set, lookup-set_self, lookup-set_other}
use knowlega.Scan.Watch.{
  Watch, SourceFile, Found, archived, plain, Scan, was_ignored, was_unsupported, is_unchanged,
  is_supported_ext, force_of, note_unsupported, observe, observe_found, observe_all,
}

-- A file in order: an archive whose hashes are those of its metadata, or any plain file.
abbrev pub Intact : Found → Type 0
Intact (archived f recorded content) = ((f.hash == recorded) ≡ true) × (force_of content ≡ none)
Intact (plain f) = Unit

abbrev pub file_of : Found → SourceFile
file_of (archived f recorded content) = f
file_of (plain f) = f

abbrev pub found_paths : List Found → List String
found_paths [] = []
found_paths (f ∷ found) = (file_of f).path ∷ found_paths found

-- No two have the same path.
abbrev pub DistinctPaths : List Found → Type 0
DistinctPaths [] = Unit
DistinctPaths (f ∷ found) =
    (elem (file_of f).path (found_paths found) ≡ false) × DistinctPaths found

-- An intact file is observed as a plain one.
observe_found-Intact :
    (watch : Watch) (f : Found) (s : Scan)
    → Intact f
    → observe_found watch f s ≡ observe watch (file_of f) none s
unfolding observe_found
observe_found-Intact watch (archived f recorded content) s (valid, calm) = rw (valid, calm) refl
observe_found-Intact watch (plain f) s h = refl

pub observe_all-cons :
    (watch : Watch) (f : Found) (found : List Found) (s : Scan)
    → Intact f
    → observe_all watch (f ∷ found) s ≡ observe_all watch found (observe watch (file_of f) none s)
unfolding observe_all
observe_all-cons watch f found s h = ap (observe_all watch found) (observe_found-Intact watch f s h)

-- The status that a scan gives a file.
abbrev pub status_of : Watch → SourceFile → String
status_of watch f =
    if was_ignored f.hash (lookup f.path watch)
    then "present"
    else (if is_supported_ext f.ext then "present" else "unsupported")

-- An observation writes down its own file.
pub observe-current :
    (watch : Watch) (f : SourceFile) (s : Scan)
    → (observe watch f none s).current ≡ set f.path (f.hash, status_of watch f) s.current
unfolding observe note_unsupported
observe-current watch f s = elim (Bool-cases (was_ignored f.hash (lookup f.path watch))) [
  | inl i ↦ rw i refl
  | inr i ↦ rw i (elim (Bool-cases (is_supported_ext f.ext)) [
    | inr u ↦ rw u (elim (Bool-cases (was_unsupported f.hash (lookup f.path watch))) [
      | inl k ↦ rw k refl
      | inr k ↦ rw k refl
    ])
    | inl u ↦ rw u (elim (Bool-cases (is_some (lookup f.path watch))) [
      | inr n ↦ rw n refl
      | inl n ↦ rw n (elim (Bool-cases (is_unchanged f.hash (lookup f.path watch))) [
        | inl k ↦ rw k refl
        | inr k ↦ rw k refl
      ])
    ])
  ])
]

-- Observing other files leaves what is written down of a path.
lookup-observe_all :
    (watch : Watch) (found : List Found) (s : Scan) (p : String)
    → All Intact found
    → elem p (found_paths found) ≡ false
    → lookup p (observe_all watch found s).current ≡ lookup p s.current
unfolding observe_all
lookup-observe_all watch [] s p h apart = refl
lookup-observe_all watch (f ∷ found) s p h apart =
    let other : (p == (file_of f).path) ≡ false = ground (arith, apart) in
    let rest : elem p (found_paths found) ≡ false = ground (arith, apart) in
    ap (λ (t : Scan). lookup p t.current) (observe_all-cons watch f found s h.0)
    ∙ lookup-observe_all watch found (observe watch (file_of f) none s) p h.1 rest
    ∙ ap (lookup p) (observe-current watch (file_of f) s)
    ∙ lookup-set_other p (file_of f).path _ s.current other

-- Each file that was found is written down.
abbrev pub Noted : Watch → List (String × (String × String)) → Found → Type 0
Noted watch current f =
    lookup (file_of f).path current ≡ some ((file_of f).hash, status_of watch (file_of f))

pub observe_all-Noted :
    (watch : Watch) (found : List Found) (s : Scan)
    → All Intact found
    → DistinctPaths found
    → All (Noted watch (observe_all watch found s).current) found
unfolding observe_all
observe_all-Noted watch [] s h d = tt
observe_all-Noted watch (f ∷ found) s h d =
    subst (λ t. All (Noted watch t.current) (f ∷ found))
      (sym (observe_all-cons watch f found s h.0))
      (
        lookup-observe_all watch found (observe watch (file_of f) none s) (file_of f).path h.1 d.0
            ∙ ap (lookup (file_of f).path) (observe-current watch (file_of f) s)
            ∙ lookup-set_self (file_of f).path _ s.current,
        observe_all-Noted watch found (observe watch (file_of f) none s) h.1 d.1,
      )

-- The paths that are written down are those before and those found, whatever the watch file says.
is_some-set :
    (p k : String) (v : String × String) (d : List (String × (String × String)))
    → is_some (lookup p (set k v d)) ≡ (p == k || is_some (lookup p d))
is_some-set p k v d = elim (Bool-cases (p == k)) [
  | inl e ↦ rw e (rw ((eq_iff p k).0 e) (ap is_some (lookup-set_self k v d)))
  | inr e ↦ rw e (ap is_some (lookup-set_other p k v d e))
]

pub is_some-observe_all :
    (watch : Watch) (found : List Found) (s : Scan) (p : String)
    → All Intact found
    → is_some (lookup p (observe_all watch found s).current)
      ≡ (elem p (found_paths found) || is_some (lookup p s.current))
unfolding observe_all
is_some-observe_all watch [] s p h = refl
is_some-observe_all watch (f ∷ found) s p h =
    ap (λ (t : Scan). is_some (lookup p t.current)) (observe_all-cons watch f found s h.0)
    ∙ (is_some-observe_all watch found (observe watch (file_of f) none s) p h.1
        ∙ ground (
          arith,
          ap (λ c. is_some (lookup p c)) (observe-current watch (file_of f) s),
          is_some-set p (file_of f).path ((file_of f).hash, status_of watch (file_of f)) s.current,
        ))
