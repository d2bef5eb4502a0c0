-- ===== src/Manifest/Versions.antt =====
-- What AppendPriorVersion keeps of the history of a source.
use knowlega.Base.{
  Bool, true, false, ◌&&◌, ◌||◌, ◌≡◌, ◌≢◌, ◌⊎◌, refl, inl, inr, List, [], ◌∷◌, ◌++◌, ◌==◌, arith,
  any, Bool-cases, eq_iff,
}
use knowlega.Base.Text.{trim_space}
use knowlega.Manifest.File.{
  Entry, SourceVersion, same_version, prior_version, versions_after, append_prior_version,
}

-- No two versions have both the hash and the path of their text in common.
abbrev pub same_text : SourceVersion → SourceVersion → Bool
same_text v w = w.sha256 == v.sha256 && w.raw_path == v.raw_path

abbrev pub Distinct : List SourceVersion → Type 0
Distinct [] = Unit
Distinct (v ∷ versions) = (any (same_text v) versions ≡ false) × Distinct versions

-- The history after the change: the versions are the old ones, and the previous text has no hash, or
-- the hash of the new one, or is among them; or the previous text, which has a hash of its own and is
-- not among them, comes behind them. None is twice.
abbrev pub Kept : Entry → Entry → Entry → Type 0
Kept previous next next' =
    ((next'.versions ≡ previous.versions)
        × ((trim_space previous.sha256 ≡ "")
            ⊎ (previous.sha256 ≡ next.sha256)
            ⊎ (any (same_version previous) previous.versions ≡ true))
      ⊎ (next'.versions ≡ previous.versions ++ prior_version previous ∷ [])
        × (trim_space previous.sha256 ≢ "")
        × (previous.sha256 ≢ next.sha256)
        × (any (same_version previous) previous.versions ≡ false))
    × Distinct next'.versions
    × (record next' { versions = next.versions } ≡ next)

any-same_text-snoc :
    (v p : SourceVersion) (versions : List SourceVersion)
    → any (same_text v) versions ≡ false
    → same_text v p ≡ false
    → any (same_text v) (versions ++ p ∷ []) ≡ false
any-same_text-snoc v p [] h apart = rw apart refl
any-same_text-snoc v p (w ∷ versions) h apart = elim (Bool-cases (same_text v w)) [
  | inl e ↦ absurd (ground (arith, h, e))
  | inr e ↦ rw e (any-same_text-snoc v p versions (rw e at h) apart)
]

Distinct-snoc :
    (entry : Entry) (versions : List SourceVersion)
    → Distinct versions
    → any (same_version entry) versions ≡ false
    → Distinct (versions ++ prior_version entry ∷ [])
unfolding prior_version
Distinct-snoc entry [] d new = (refl, tt)
Distinct-snoc entry (v ∷ versions) d new = elim (Bool-cases (same_version entry v)) [
  | inl e ↦ absurd (ground (arith, new, e))
  | inr e ↦
      let apart : same_text v (unfold prior_version in prior_version entry) ≡ false = ground (
        arith,
        e,
        eq_iff entry.sha256 v.sha256,
        eq_iff v.sha256 entry.sha256,
        eq_iff entry.raw_path v.raw_path,
        eq_iff v.raw_path entry.raw_path,
      ) in
      (any-same_text-snoc v _ versions d.0 apart, Distinct-snoc entry versions d.1 (rw e at new))
]

-- If the previous versions list no text twice, AppendPriorVersion keeps them and their order, and adds
-- the previous text behind them exactly if it has a hash, that is not the new one's, and it is not
-- there already; no text is listed twice, and nothing else of the entry changes.
pub append_prior_version-Kept :
    (previous next : Entry)
    → Distinct previous.versions
    → Kept previous next (append_prior_version previous next)
unfolding append_prior_version versions_after
append_prior_version-Kept previous next d =
    let blank = eq_iff (trim_space previous.sha256) "" in
    let same = eq_iff previous.sha256 next.sha256 in
    elim (Bool-cases (trim_space previous.sha256 == "" || previous.sha256 == next.sha256)) [
      | inl e ↦ rw e (inl (refl, ground (arith, e, blank, same)), d, refl)
      | inr e ↦ rw e (elim (Bool-cases (any (same_version previous) previous.versions)) [
        | inl f ↦ rw f (inl (refl, inr (inr refl)), d, refl)
        | inr f ↦ rw f (
          inr (refl, ground (arith, e, blank), ground (arith, e, same), refl),
          Distinct-snoc previous previous.versions d f,
          refl,
        )
      ])
    ]
