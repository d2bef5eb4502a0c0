-- ===== src/Manifest/File.antt =====
-- The manifest as it stands in memory, and the functions that change it. Paths are those of Unix,
-- on which filepath.ToSlash changes nothing. A time, a JSON text and a hash are texts.
use text.Mathlib.Text.{starts_with}
use knowlega.Base.{
  ℕ, zero, suc, String, Bool, true, false, not, ◌&&◌, ◌||◌, Option, none, some, List, [], ◌∷◌, ◌++◌,
  ◌==◌, if◌then◌else◌, any, keep_if,
}
use knowlega.Base.Maps.{lookup, set, remove}
use knowlega.Base.Text.{trim_space}
use knowlega.Scheduler.Texts.{sorted_unique}

pub record SourceVersion : Type 0 where
  pub sha256 : String
  pub raw_path : String
  pub archive_path : String
  pub original_raw_path : String
  pub content_path : String
  pub original_sha256 : String
  pub content_sha256 : String
  pub files : List String
  pub updated_at : String
  pub extraction : String

pub record Entry : Type 0 where
  pub qm_file_id : String
  pub qm_project_id : String
  pub qm_scope_id : String
  pub qm_source_sha256 : String
  pub original_path : String
  pub pipeline_version : ℕ
  pub sha256 : String
  pub raw_path : String
  pub archive_path : String
  pub original_raw_path : String
  pub content_path : String
  pub original_sha256 : String
  pub content_sha256 : String
  pub title : String
  pub files : List String
  pub generation_contract_sha256 : String
  pub new_page_budget : ℕ
  pub new_page_count : ℕ
  pub created_pages : List String
  pub review_count : ℕ
  pub updated_at : String
  pub extraction : String
  pub versions : List SourceVersion

pub record PageOwnership : Type 0 where
  pub managed_by : String
  pub source_keys : List String

pub record ManifestFile : Type 0 where
  pub version : ℕ
  pub sources : List (String × Entry)
  pub page_owners : List (String × PageOwnership)

unfoldable pub unique : List String → List String
unfolding sorted_unique
unique texts = sorted_unique texts

abbrev pub files_of_versions : List SourceVersion → List String
files_of_versions [] = []
files_of_versions (v ∷ versions) = v.files ++ files_of_versions versions

unfoldable pub owned_files : Entry → List String
unfolding unique
owned_files entry = unique (entry.files ++ files_of_versions entry.versions)

abbrev pub is_summary : String → Bool
is_summary path = starts_with path "wiki/sources/"

abbrev pub trimmed : List String → List String
trimmed [] = []
trimmed (s ∷ ss) = trim_space s ∷ trimmed ss

unfoldable pub active_owned_files : Entry → List String
unfolding unique
active_owned_files entry =
    unique (
      entry.files ++ keep_if (λ p. not (is_summary p)) (trimmed (files_of_versions entry.versions)))

unfoldable pub prior_version : Entry → SourceVersion
prior_version entry = record {
  sha256 = entry.sha256;
  raw_path = entry.raw_path;
  archive_path = entry.archive_path;
  original_raw_path = entry.original_raw_path;
  content_path = entry.content_path;
  original_sha256 = entry.original_sha256;
  content_sha256 = entry.content_sha256;
  files = entry.files;
  updated_at = entry.updated_at;
  extraction = entry.extraction;
}

abbrev pub same_version : Entry → SourceVersion → Bool
same_version entry v = v.sha256 == entry.sha256 && v.raw_path == entry.raw_path

-- The versions that `next` gets.
unfoldable pub versions_after : Entry → String → List SourceVersion
unfolding prior_version
versions_after previous next_sha =
    if trim_space previous.sha256 == "" || previous.sha256 == next_sha
    then previous.versions
    else if any (same_version previous) previous.versions
    then previous.versions
    else previous.versions ++ prior_version previous ∷ []

unfoldable pub append_prior_version : Entry → Entry → Entry
unfolding versions_after
append_prior_version previous next = record next { versions = versions_after previous next.sha256 }

abbrev pub no_owner : PageOwnership
no_owner = record { managed_by = ""; source_keys = [] }

abbrev pub owner_or_none : Option PageOwnership → PageOwnership
owner_or_none none = no_owner
owner_or_none (some o) = o

-- Who manages a page after `by` registers for it: a page that people manage stays theirs.
abbrev pub manager : String → String → String
manager by old =
    if not (by == "") && (old == "" || not (by == "source") || old == "source") then by else old

abbrev pub with_key : String → List String → List String
with_key key keys = if key == "" then keys else keys ++ key ∷ []

abbrev pub registered : String → String → PageOwnership → PageOwnership
registered by key owner = record {
  managed_by = manager (trim_space by) owner.managed_by;
  source_keys = unique (with_key key owner.source_keys);
}

unfoldable pub register_page_owner : String → String → String → ManifestFile → ManifestFile
unfolding unique
register_page_owner page by key file =
    let path = trim_space page in
    let owner = owner_or_none (lookup path file.page_owners) in
    if path == ""
    then file
    else record file { page_owners = set path (registered by key owner) file.page_owners }

unfoldable pub remove_page_owner : String → ManifestFile → ManifestFile
remove_page_owner page file = record file {
  page_owners = remove (trim_space page) file.page_owners;
}

abbrev pub without_key : String → PageOwnership → PageOwnership
without_key key owner = record owner {
  source_keys = unique (keep_if (λ k. not (k == key)) owner.source_keys);
}

abbrev pub is_nil : List String → Bool
is_nil [] = true
is_nil (s ∷ ss) = false

-- A page of the compiler goes with its last source.
abbrev pub is_orphan : PageOwnership → Bool
is_orphan owner = owner.managed_by == "source" && is_nil owner.source_keys

unfoldable pub release_page : String → String → Option PageOwnership → ManifestFile → ManifestFile
unfolding unique
release_page path key none file = file
release_page path key (some owner) file =
    if is_orphan (without_key key owner)
    then record file { page_owners = remove path file.page_owners }
    else record file { page_owners = set path (without_key key owner) file.page_owners }

unfoldable pub unregister_source_owner : String → String → ManifestFile → ManifestFile
unfolding release_page
unregister_source_owner page key file =
    let path = trim_space page in release_page path key (lookup path file.page_owners) file

-- Load migrates manifests that have no owners: each page of a source that nobody manages, or the
-- compiler, becomes the source's.
abbrev pub may_register : Option PageOwnership → Bool
may_register none = true
may_register (some owner) = owner.managed_by == "source"

unfoldable pub register_pages : String → List String → ManifestFile → ManifestFile
unfolding register_page_owner
register_pages key [] file = file
register_pages key (page ∷ pages) file = register_pages key pages (
    if may_register (lookup page file.page_owners)
    then register_page_owner page "source" key file
    else file)

unfoldable pub register_sources : List (String × Entry) → ManifestFile → ManifestFile
unfolding register_pages owned_files
register_sources [] file = file
register_sources ((key, entry) ∷ sources) file =
    register_sources sources (register_pages key (owned_files entry) file)

-- What Load returns of the text of the file: none of a file that is missing or empty, an error of one
-- that is no JSON, and else the decoded manifest, migrated.
pub data Stored : Type 0 where
  missing empty malformed : Stored
  decoded : ManifestFile → Stored

unfoldable pub load : Stored → Option ManifestFile
unfolding register_sources
load missing = some (record { version = 1; sources = []; page_owners = [] })
load empty = some (record { version = 1; sources = []; page_owners = [] })
load malformed = none
load (decoded file) = some (
    register_sources file.sources
      (record file { version = elim file.version [ zero ↦ 1 | suc n ↦ suc n ] }))
