-- ===== src/Policy.antt =====
-- The budget of a generation (internal/agent/knowlega/compiler/generation_policy.go). `contract_of` is
-- generationContractSHA256, a hash of the wiki's texts and the limits. A number that is not positive
-- is 0 in the options; the number of pages that an entry has created is an int of any sign.
pub mod Budget
mod Tests
use knowlega.Base.{
  ℕ, suc, ◌+◌, ◌-◌, ◌≤◌, String, ◌≡◌, Bool, true, false, ◌&&◌, Option, none, some, arith, ◌==◌, ltb,
  ◌=ℕ◌, if◌then◌else◌,
}
use knowlega.Base.Int.{ℤ, pos, negsuc, ltz}

abbrev pub or_limit : ℕ → ℕ → ℕ
or_limit n d = if n =ℕ 0 then d else n

unfoldable pub normalized_limits : ℕ → ℕ → ℕ × ℕ
normalized_limits max_files max_new_pages = (or_limit max_files 12, or_limit max_new_pages 3)

pub record SourceManifestEntry : Type 0 where
  pub sha256 : String
  pub generation_contract : String
  pub new_page_count : ℤ

pub record GenerationPolicy : Type 0 where
  pub max_file_blocks : ℤ
  pub max_new_pages_per_source : ℕ
  pub remaining_new_pages : ℤ
  pub update_only : Bool

-- n - z and n + z.
abbrev pub minus_int : ℕ → ℤ → ℤ
minus_int n (pos m) = if ltb n m then negsuc (m - suc n) else pos (n - m)
minus_int n (negsuc m) = pos (n + suc m)

abbrev pub plus_int : ℕ → ℤ → ℤ
plus_int n (pos m) = pos (n + m)
plus_int n (negsuc m) = minus_int n (pos (suc m))

-- if remaining < 0 { remaining = 0 }
abbrev pub at_least : ℕ → ℤ → ℤ
at_least low z = if ltz z (pos low) then pos low else z

-- What is left of the budget.
unfoldable pub remaining_pages : Option SourceManifestEntry → String → String → ℕ → Bool → ℤ
remaining_pages entry source_hash contract max_new_pages update_only =
    let remaining : ℤ = elim entry [
      | none ↦ pos max_new_pages
      | some e ↦
          if e.sha256 == source_hash && e.generation_contract == contract
          then at_least 0 (minus_int max_new_pages e.new_page_count)
          else pos max_new_pages
    ] in
    if update_only then pos 0 else remaining

unfoldable pub generation_policy_for :
    (ℕ → ℕ → String)
    → ℕ
    → ℕ
    → Bool
    → Option SourceManifestEntry
    → String
    → GenerationPolicy × String
unfolding normalized_limits remaining_pages
generation_policy_for contract_of max_files max_new_pages update_only entry source_hash =
    let (files, new_pages) = normalized_limits max_files max_new_pages in
    let contract = contract_of files new_pages in
    (
      record {
        max_file_blocks = pos files;
        max_new_pages_per_source = new_pages;
        remaining_new_pages = remaining_pages entry source_hash contract new_pages update_only;
        update_only = update_only;
      },
      contract,
    )

unfoldable pub effective_policy : GenerationPolicy → ℕ → GenerationPolicy
effective_policy p existing_update_paths =
    let most = at_least 1 (plus_int (1 + existing_update_paths) p.remaining_new_pages) in
    if ltz most p.max_file_blocks then record p { max_file_blocks = most } else p
