-- ===== src/Manifest/Returns.antt =====
-- A source that registers for a page nobody owns and goes again leaves no trace.
use mathlib.Core.Path.{fun_ext}
use knowlega.Base.{
  String, true, false, ◌≡◌, refl, sym, ◌∙◌, inl, inr, Option, none, some, [], ◌∷◌, ◌==◌, Bool-cases,
  eq_iff, eq_refl,
}
use knowlega.Base.Maps.{
  lookup, set, remove, lookup-set_self, lookup-set_other, lookup-remove_self, lookup-remove_other,
}
use knowlega.Base.Text.{trim_space}
use knowlega.Scheduler.Texts.{sorted_unique, unique_texts, sort_texts}
use knowlega.Manifest.File.{
  ManifestFile, PageOwnership, no_owner, registered, unique, register_page_owner, without_key,
  is_orphan, unregister_source_owner,
}

-- The owners as a map.
abbrev pub owners : ManifestFile → String → Option PageOwnership
owners file path = lookup path file.page_owners

unique-one :
    (key : String) → trim_space key ≡ key → (key == "") ≡ false → unique (key ∷ []) ≡ key ∷ []
unfolding unique sorted_unique unique_texts sort_texts
unique-one key tight named = rw tight (rw named refl)

registered-one :
    (key : String)
    → trim_space key ≡ key
    → (key == "") ≡ false
    → registered "source" key no_owner ≡ record { managed_by = "source"; source_keys = key ∷ [] }
unfolding trim_space
registered-one key tight named =
    rw named (rw (unique-one key (unfold trim_space in tight) named) refl)

orphan-one :
    (key : String)
    → is_orphan (without_key key (record { managed_by = "source"; source_keys = key ∷ [] })) ≡ true
unfolding unique sorted_unique unique_texts sort_texts
orphan-one key = rw (eq_refl key) refl

owner_of_new :
    (path key : String) (file : ManifestFile)
    → (path == "") ≡ false
    → trim_space path ≡ path
    → trim_space key ≡ key
    → (key == "") ≡ false
    → owners file path ≡ none
    → register_page_owner path "source" key file ≡ record file {
      page_owners =
          set path (record { managed_by = "source"; source_keys = key ∷ [] }) file.page_owners;
    }
unfolding register_page_owner
owner_of_new path key file long tight tight' named free =
    rw tight (rw (long, free) (rw (registered-one key tight' named) refl))

unregister_last :
    (path key : String) (file : ManifestFile) (o : PageOwnership)
    → trim_space path ≡ path
    → lookup path file.page_owners ≡ some o
    → is_orphan (without_key key o) ≡ true
    → unregister_source_owner path key file
      ≡ record file { page_owners = remove path file.page_owners }
unfolding unregister_source_owner
unregister_last path key file o tight found last = rw tight (rw found (rw last refl))

-- Registering a source for a page that has no owner and unregistering it gives the owners from before,
-- where the path and the key are not empty and have no outer spaces.
pub unregister-register :
    (path key : String) (file : ManifestFile)
    → (path == "") ≡ false
    → trim_space path ≡ path
    → trim_space key ≡ key
    → (key == "") ≡ false
    → owners file path ≡ none
    → owners (unregister_source_owner path key (register_page_owner path "source" key file))
      ≡ owners file
unregister-register path key file long tight tight' named free =
    let owner : PageOwnership = record { managed_by = "source"; source_keys = key ∷ [] } in
    let after : ManifestFile = record file { page_owners = set path owner file.page_owners } in
    rw (owner_of_new path key file long tight tight' named free) (
      rw
        (unregister_last path key after owner tight (lookup-set_self path owner file.page_owners)
          (orphan-one key))
        (fun_ext λ j. elim (Bool-cases (j == path)) [
          | inl e ↦
              rw ((eq_iff j path).0 e)
                (lookup-remove_self path (set path owner file.page_owners) ∙ sym free)
          | inr e ↦
              lookup-remove_other j path (set path owner file.page_owners) e
              ∙ lookup-set_other j path owner file.page_owners e
        ]))
