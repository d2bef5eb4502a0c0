-- ===== src/Policy/Budget.antt =====
-- What the budget of a generation promises.
use knowlega.Base.{
  ℕ, suc, ◌+◌, ◌-◌, ◌≤◌, String, ◌≡◌, refl, ◌⊎◌, inl, inr, Bool, true, false, Option, none, some,
  arith, Bool-cases, ◌==◌, ◌&&◌, ltb,
}
use knowlega.Base.Int.{ℤ, pos, negsuc, ltz}
use knowlega.Policy.{
  SourceManifestEntry, GenerationPolicy, or_limit, normalized_limits, minus_int, plus_int, at_least,
  remaining_pages, generation_policy_for, effective_policy,
}

-- An entry whose number of created pages is negative.
abbrev pub has_negative : Option SourceManifestEntry → Bool
has_negative none = false
has_negative (some e) = ltz e.new_page_count (pos 0)

-- What is left is not negative, nothing for an update only, and at most the limit.
Left : Option SourceManifestEntry → ℕ → Bool → ℤ → Type 0
Left entry n update_only z =
    (r : ℕ) × (z ≡ pos r)
    × ((has_negative entry ≡ true) ⊎ (r ≤ n))
    × ((update_only ≡ false) ⊎ (r ≡ 0))

clamped :
    (n : ℕ) (c : ℤ)
    → (r : ℕ) × (at_least 0 (minus_int n c) ≡ pos r) × ((ltz c (pos 0) ≡ true) ⊎ (r ≤ n))
clamped n (pos m) = elim (Bool-cases (ltb n m)) [
  | inl e ↦ rw e (0, refl, inr (omega arith))
  | inr e ↦ rw e (n - m, ground arith, inr (omega arith))
]
clamped n (negsuc m) = (n + suc m, ground arith, inl refl)

remaining_pages-Left :
    (entry : Option SourceManifestEntry) (hash contract : String) (n : ℕ) (update_only : Bool)
    → Left entry n update_only (remaining_pages entry hash contract n update_only)
unfolding remaining_pages Left
remaining_pages-Left entry hash contract n true = (0, refl, inr (omega arith), inr refl)
remaining_pages-Left none hash contract n false = (n, refl, inr (omega arith), inl refl)
remaining_pages-Left (some e) hash contract n false =
    elim (Bool-cases (e.sha256 == hash && e.generation_contract == contract)) [
      | inl same ↦ let (r, is, le) = clamped n e.new_page_count in rw same (r, is, le, inl refl)
      | inr other ↦ rw other (n, refl, inr (omega arith), inl refl)
    ]

-- z ≤ w.
abbrev pub AtMost : ℤ → ℤ → Type 0
AtMost z w = ltz w z ≡ false

-- The bounds on a policy, with `files` and `pages` the limits of the options.
abbrev pub Bounded : Option SourceManifestEntry → Bool → ℕ → ℕ → ℕ → GenerationPolicy → Type 0
Bounded entry update_only files pages existing q =
    AtMost (pos 1) q.max_file_blocks
    × AtMost q.max_file_blocks (pos files)
    × AtMost q.max_file_blocks (plus_int (1 + existing) q.remaining_new_pages)
    × AtMost (pos 0) q.remaining_new_pages
    × ((update_only ≡ false) ⊎ (q.remaining_new_pages ≡ pos 0))
    × ((has_negative entry ≡ true) ⊎ AtMost q.remaining_new_pages (pos pages))

effective-Bounded :
    (entry : Option SourceManifestEntry) (update_only : Bool) (files pages existing : ℕ) (z : ℤ)
    → 1 ≤ files
    → Left entry pages update_only z
    → Bounded entry update_only files pages existing (
        effective_policy
          (record {
            max_file_blocks = pos files;
            max_new_pages_per_source = pages;
            remaining_new_pages = z;
            update_only = update_only;
          })
          existing)
unfolding effective_policy Left
effective-Bounded entry update_only files pages existing z some_file (r, is, le, idle) =
    rw is (ground (arith, some_file, le, idle))

-- The policy for any options, entry and number of existing pages allows at least one file, no more
-- files than the limit, and no more than the summary, the remaining new pages and the existing pages;
-- the remaining new pages are not negative, none for an update only, and no more than the limit unless
-- the entry's number of created pages is negative.
pub policy-bounds :
    (contract_of : ℕ → ℕ → String) (max_files max_new_pages : ℕ) (update_only : Bool)
    (entry : Option SourceManifestEntry) (hash : String) (existing : ℕ)
    → let limits = normalized_limits max_files max_new_pages in
      Bounded entry update_only limits.0 limits.1 existing (
        effective_policy
          (generation_policy_for contract_of max_files max_new_pages update_only entry hash).0
          existing)
unfolding generation_policy_for normalized_limits
policy-bounds contract_of max_files max_new_pages update_only entry hash existing =
    let files = or_limit max_files 12 in
    let pages = or_limit max_new_pages 3 in
    effective-Bounded entry update_only files pages existing _ (ground arith)
      (remaining_pages-Left entry hash (contract_of files pages) pages update_only)
