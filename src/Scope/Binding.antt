-- ===== src/Scope/Binding.antt =====
-- Bindings, their checks, and the store behind the resolver as an interface.
use Prim.Native.Char.{Char, code}
use knowlega.Base.{
  ℕ, ◌+◌, String, Bool, true, false, not, ◌&&◌, ◌||◌, ◌≡◌, ◌==◌, ◌=ℕ◌, ltb, if◌then◌else◌,
}
use knowlega.Base.Text.{trim_space}

pub record ScopeBinding : Type 0 where
  pub provider : String
  pub external_scope_id : String
  pub kind : String
  pub organization_id : String
  pub project_id : String
  pub project_name : String
  pub root_path : String
  pub status : String
  pub created_at : ℕ
  pub updated_at : ℕ

pub record Project : Type 0 where
  pub id : String
  pub name : String
  pub root_path : String
  pub created_at : ℕ
  pub updated_at : ℕ

-- ErrInvalid, ErrNotFound, ErrNotConfigured, ErrPathOutsideRoot, an error of the store, and whether
-- its text has that of ErrNotFound in it, and an error of os.MkdirAll.
pub data Error : Type 0 where
  invalid not_found not_configured path_outside_root no_directory : Error
  store_error : Bool → Error

pub data Result {ℓ} (A : Type ℓ) : Type ℓ where
  ok : A → Result A
  err : Error → Result A

-- What GetScopeBinding answers: a binding, ErrNotFound or no rows, or another error.
pub data Lookup : Type 0 where
  found : ScopeBinding → Lookup
  no_rows : Lookup
  broken : Bool → Lookup

-- BindingStore, over the states of a store. An upsert says whether it succeeded.
pub record BindingStore (S : Type 0) : Type 0 where
  pub get_scope_binding : S → String → String → Lookup
  pub upsert_project : S → Project → S × Bool
  pub upsert_scope_binding : S → ScopeBinding → S × Bool

-- All of a binding but its times.
abbrev pub untimed : ScopeBinding → ScopeBinding
untimed b = record b { created_at = 0; updated_at = 0 }

-- What the resolver relies on: a binding that was stored is found under its provider and scope, though
-- its times may be others (the store keeps the first time of creation, fills in times that are zero
-- and rounds them); what is found under a provider and a scope has them, and storing a binding changes
-- no other.
pub record IsLawful (S : Type 0) (store : BindingStore S) : Type 0 where
  pub get-upsert :
      (s : S) (b : ScopeBinding)
      → (store.upsert_scope_binding s b).1 ≡ true
      → (c : ScopeBinding) × (store.get_scope_binding
            (store.upsert_scope_binding s b).0
            b.provider
            b.external_scope_id
          ≡ found c)
        × (untimed c ≡ untimed b)
  pub key :
      (s : S) (provider scope : String) (b : ScopeBinding)
      → store.get_scope_binding s provider scope ≡ found b
      → (b.provider ≡ provider) × (b.external_scope_id ≡ scope)
  pub missing :
      (s : S) (b : ScopeBinding) (q : Project) (provider scope : String)
      → (provider == b.provider && scope == b.external_scope_id) ≡ false
      → store.get_scope_binding
          (store.upsert_scope_binding (store.upsert_project s q).0 b).0
          provider
          scope
        ≡ store.get_scope_binding s provider scope

-- strings.ContainsAny(s, "/\\\x00").
abbrev pub is_unsafe : Char → Bool
is_unsafe c = let n = code c in n =ℕ 47 || n =ℕ 92 || n =ℕ 0

abbrev pub has_unsafe : String → Bool
has_unsafe String.[] = false
has_unsafe (String.◌∷◌ c s) = is_unsafe c || has_unsafe s

-- len(s): the bytes of its UTF-8 encoding.
abbrev pub char_bytes : Char → ℕ
char_bytes c =
    let n = code c in
    if ltb n 128 then 1 else (if ltb n 2048 then 2 else (if ltb n 65536 then 3 else 4))

abbrev pub bytes : String → ℕ
bytes String.[] = 0
bytes (String.◌∷◌ c s) = char_bytes c + bytes s

abbrev pub or_text : String → String → String
or_text s default = if s == "" then default else s

unfoldable pub normalize_binding : ScopeBinding → String → ScopeBinding
normalize_binding b provider = record {
  provider = or_text (trim_space b.provider) (trim_space provider);
  external_scope_id = trim_space b.external_scope_id;
  kind = or_text (trim_space b.kind) "project";
  organization_id = trim_space b.organization_id;
  project_id = trim_space b.project_id;
  project_name = trim_space b.project_name;
  root_path = trim_space b.root_path;
  status = or_text (trim_space b.status) "empty";
  created_at = b.created_at;
  updated_at = b.updated_at;
}

unfoldable pub check_ref : String → String → Result (String × String)
check_ref scope kind =
    if scope == "" || ltb 512 (bytes scope) || has_unsafe scope
    then err invalid
    else (if ltb 64 (bytes kind) || has_unsafe kind then err invalid else ok (scope, kind))

-- The scope and the kind, normalized.
unfoldable pub normalize_ref : String → String → Result (String × String)
unfolding check_ref
normalize_ref scope kind = check_ref (trim_space scope) (or_text (trim_space kind) "project")

-- The separate texts have an unsafe character where their concatenation has one.
unfoldable pub is_valid_binding : ScopeBinding → Bool
is_valid_binding b =
    not (
      b.provider == ""
      || b.external_scope_id == ""
      || b.kind == ""
      || b.project_id == ""
      || b.root_path == "")
    && not (
        has_unsafe b.provider
        || has_unsafe b.external_scope_id
        || has_unsafe b.kind
        || has_unsafe b.project_id)

unfoldable pub validate_resolved : ScopeBinding → Result ScopeBinding
unfolding is_valid_binding
validate_resolved b =
    if not (is_valid_binding b)
    then err invalid
    else (if b.status == "archived" then err not_found else ok b)
