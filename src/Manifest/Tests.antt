-- ===== src/Manifest/Tests.antt =====
-- A manifest with one page of a person and one of a source.
use mathlib.Core.Bool.{false≢true}
use knowlega.Base.{eq_iff, some, List, [], ◌∷◌, ◌≡◌, refl}
use knowlega.Base.Text.{trim_space}
use knowlega.Manifest.File.{
  Entry, SourceVersion, PageOwnership, ManifestFile, owned_files, active_owned_files,
  append_prior_version, register_page_owner, unregister_source_owner, load, decoded, missing,
}
use knowlega.Manifest.Owners.{Change, adds, drops, apply_all, ManagedBy, apply_all-ManagedBy}
use knowlega.Manifest.Returns.{owners, unregister-register}
use knowlega.Manifest.Versions.{Kept, append_prior_version-Kept}

abbrev person : PageOwnership
person = record { managed_by = "human"; source_keys = [] }

abbrev file : ManifestFile
file = record { version = 1; sources = []; page_owners = ("wiki/a.md", person) ∷ [] }

abbrev changes : List Change
changes = adds "wiki/a.md" "/raw/x" ∷ drops "wiki/a.md" "/raw/x" ∷ adds "wiki/b.md" "/raw/x" ∷ []

apply_all-ManagedBy_example : ManagedBy "wiki/a.md" "human" (apply_all changes file)
apply_all-ManagedBy_example =
    apply_all-ManagedBy changes "wiki/a.md" "human" file (λ h. false≢true ((eq_iff "human" "").1 h))
      (λ h. false≢true ((eq_iff "human" "source").1 h)) (person, refl, refl)

unregister-register_example :
    owners (
      unregister_source_owner "wiki/b.md" "/raw/x"
        (register_page_owner "wiki/b.md" "source" "/raw/x" file))
    ≡ owners file
unregister-register_example =
    unregister-register "wiki/b.md" "/raw/x" file refl (unfold trim_space in refl)
      (unfold trim_space in refl) refl refl

abbrev old : SourceVersion
old = record {
  sha256 = "h0";
  raw_path = "/raw/x";
  archive_path = "";
  original_raw_path = "";
  content_path = "";
  original_sha256 = "";
  content_sha256 = "";
  files = "wiki/sources/x0.md" ∷ " wiki/c.md" ∷ [];
  updated_at = "";
  extraction = "";
}

abbrev entry : Entry
entry = record {
  qm_file_id = "";
  qm_project_id = "";
  qm_scope_id = "";
  qm_source_sha256 = "";
  original_path = "/raw/x";
  pipeline_version = 1;
  sha256 = "h1";
  raw_path = "/raw/x";
  archive_path = "";
  original_raw_path = "";
  content_path = "";
  original_sha256 = "";
  content_sha256 = "";
  title = "x";
  files = "wiki/sources/x.md" ∷ "wiki/b.md" ∷ [];
  generation_contract_sha256 = "";
  new_page_budget = 0;
  new_page_count = 0;
  created_pages = [];
  review_count = 0;
  updated_at = "";
  extraction = "";
  versions = old ∷ [];
}

all_files :
    owned_files entry ≡ "wiki/b.md" ∷ "wiki/c.md" ∷ "wiki/sources/x.md" ∷ "wiki/sources/x0.md" ∷ []
unfolding owned_files trim_space
all_files = refl

live_files : active_owned_files entry ≡ "wiki/b.md" ∷ "wiki/c.md" ∷ "wiki/sources/x.md" ∷ []
unfolding active_owned_files trim_space
live_files = refl

no_file : load missing ≡ some (record { version = 1; sources = []; page_owners = [] })
unfolding load
no_file = refl

migrated :
    load (
      decoded
        (record file { sources = ("/raw/x", record entry { files = []; versions = [] }) ∷ [] }))
    ≡ some (record file { sources = ("/raw/x", record entry { files = []; versions = [] }) ∷ [] })
unfolding load
migrated = refl

append_prior_version-Kept_example :
    Kept entry
      (record entry { sha256 = "h2" })
      (append_prior_version entry (record entry { sha256 = "h2" }))
append_prior_version-Kept_example =
    append_prior_version-Kept entry (record entry { sha256 = "h2" }) (refl, tt)
