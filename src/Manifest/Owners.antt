-- ===== src/Manifest/Owners.antt =====
-- Who owns a page, through the calls of the compiler.
use knowlega.Base.{
  String, true, false, ◌≡◌, ◌≢◌, sym, ap, subst, ◌∙◌, inl, inr, some, List, [], ◌∷◌, ◌==◌, arith,
  Bool-cases, Option-cases, eq_iff,
}
use knowlega.Base.Maps.{lookup, set, remove, lookup-set_self, lookup-set_other, lookup-remove_other}
use knowlega.Base.Text.{trim_space}
use knowlega.Manifest.File.{
  ManifestFile, PageOwnership, owner_or_none, manager, registered, register_page_owner, without_key,
  is_orphan, unregister_source_owner,
}

-- What the compiler does to the owners of pages: a source registers for one, or goes.
pub data Change : Type 0 where
  adds : String → String → Change
  drops : String → String → Change

unfoldable pub apply : Change → ManifestFile → ManifestFile
apply (adds page key) file = register_page_owner page "source" key file
apply (drops page key) file = unregister_source_owner page key file

unfoldable pub apply_all : List Change → ManifestFile → ManifestFile
apply_all [] file = file
apply_all (c ∷ changes) file = apply_all changes (apply c file)

-- The page has an owner, with the given manager.
abbrev pub ManagedBy : String → String → ManifestFile → Type 0
ManagedBy path by file =
    (o : PageOwnership) × (lookup path file.page_owners ≡ some o) × (o.managed_by ≡ by)

ManagedBy-set :
    (path other by : String) (o : PageOwnership) (file : ManifestFile)
    → ((other ≡ path) → o.managed_by ≡ by)
    → ManagedBy path by file
    → ManagedBy path by (record file { page_owners = set other o file.page_owners })
ManagedBy-set path other by o file same (q, found, kept) = elim (Bool-cases (path == other)) [
  | inl e ↦
      let eq : path ≡ other = (eq_iff path other).0 e in
      (
        o,
        subst (λ x. lookup x (set other o file.page_owners) ≡ some o) (sym eq)
            (lookup-set_self other o file.page_owners),
        same (sym eq),
      )
  | inr e ↦ (q, lookup-set_other path other o file.page_owners e ∙ found, kept)
]

ManagedBy-remove :
    (path other by : String) (file : ManifestFile)
    → (path == other) ≡ false
    → ManagedBy path by file
    → ManagedBy path by (record file { page_owners = remove other file.page_owners })
ManagedBy-remove path other by file apart (q, found, kept) =
    (q, lookup-remove_other path other file.page_owners apart ∙ found, kept)

-- A source does not take a page from somebody else.
manager-kept : (old : String) → old ≢ "" → old ≢ "source" → manager (trim_space "source") old ≡ old
unfolding trim_space
manager-kept old h g = ground (arith, eq_iff old "", eq_iff old "source")

register-ManagedBy :
    (path page key by : String) (file : ManifestFile)
    → by ≢ ""
    → by ≢ "source"
    → ManagedBy path by file
    → ManagedBy path by (register_page_owner page "source" key file)
unfolding register_page_owner
register-ManagedBy path page key by file named other h = elim (Bool-cases (trim_space page == "")) [
  | inl e ↦ rw e h
  | inr e ↦ rw e (
      ManagedBy-set path (trim_space page) by
        (registered "source" key (owner_or_none (lookup (trim_space page) file.page_owners))) file
        (λ same. rw same (
          rw h.1 (
            subst (λ m. manager (trim_space "source") m ≡ by) (sym h.2)
              (manager-kept by named other))))
        h)
]

unregister-ManagedBy :
    (path page key by : String) (file : ManifestFile)
    → by ≢ "source"
    → ManagedBy path by file
    → ManagedBy path by (unregister_source_owner page key file)
unfolding unregister_source_owner
unregister-ManagedBy path page key by file other h =
    elim (Option-cases (lookup (trim_space page) file.page_owners)) [
      | inl e ↦ rw e h
      | inr (o, e) ↦ elim (Bool-cases (is_orphan (without_key key o))) [
        | inl gone ↦
            rw e (rw gone (ManagedBy-remove path (trim_space page) by file (apart o e gone) h))
        | inr stays ↦ rw e (
            rw stays
              (ManagedBy-set path (trim_space page) by (without_key key o) file (same_owner o e) h))
      ]
    ]
  where
    same_owner :
        (o : PageOwnership)
        → lookup (trim_space page) file.page_owners ≡ some o
        → (trim_space page ≡ path)
        → o.managed_by ≡ by
    same_owner o e eq =
        let found : lookup path file.page_owners ≡ some o =
          subst (λ x. lookup x file.page_owners ≡ some o) eq e in
        let one : o ≡ h.0 = cc (sym found ∙ h.1) in
        ap (λ (x : PageOwnership). x.managed_by) one ∙ h.2

    apart :
        (o : PageOwnership)
        → lookup (trim_space page) file.page_owners ≡ some o
        → is_orphan (without_key key o) ≡ true
        → (path == trim_space page) ≡ false
    apart o e gone = elim (Bool-cases (path == trim_space page)) [
      | inr f ↦ f
      | inl f ↦
          let eq : path ≡ trim_space page = (eq_iff path (trim_space page)).0 f in
          absurd (
            other (
              sym (same_owner o e (sym eq))
              ∙ (eq_iff o.managed_by "source").0 (ground (arith, gone))))
    ]

-- A page that somebody other than the compiler manages is never lost and never changes hands, whatever
-- sources register for it or go.
pub apply_all-ManagedBy :
    (changes : List Change) (path by : String) (file : ManifestFile)
    → by ≢ ""
    → by ≢ "source"
    → ManagedBy path by file
    → ManagedBy path by (apply_all changes file)
unfolding apply_all apply
apply_all-ManagedBy [] path by file named other h = h
apply_all-ManagedBy (adds page key ∷ changes) path by file named other h =
    apply_all-ManagedBy changes path by (register_page_owner page "source" key file) named other
      (register-ManagedBy path page key by file named other h)
apply_all-ManagedBy (drops page key ∷ changes) path by file named other h =
    apply_all-ManagedBy changes path by (unregister_source_owner page key file) named other
      (unregister-ManagedBy path page key by file other h)
