-- ===== src/Scope/Resolver.antt =====
-- The methods of Resolver. The lock of the map is held for one access at a time, and a call is taken
-- as a whole. SHA-256, filepath.Join and the test for a path within the root are arguments, as is
-- whether os.MkdirAll succeeds.
use knowlega.Base.{
  ℕ, String, Bool, true, false, not, ◌||◌, Option, none, some, List, [], ◌∷◌, ◌==◌, if◌then◌else◌,
}
use knowlega.Base.Maps.{lookup, set}
use knowlega.Base.Text.{trim_space}
use knowlega.Scope.Binding.{
  ScopeBinding, Project, Error, invalid, not_found, not_configured, path_outside_root, no_directory,
  store_error, Result, ok, err, Lookup, found, no_rows, broken, BindingStore, or_text, has_unsafe,
  normalize_binding, normalize_ref, is_valid_binding, validate_resolved,
}

-- `store` is none where the resolver has no store.
pub record Resolver (S : Type 0) : Type 0 where
  pub provider : String
  pub scope_root : String
  pub store : Option S
  pub bindings : List (String × ScopeBinding)

-- NewResolver: `abs` is the cleaned absolute path of the root, where there is one.
unfoldable pub new_resolver :
    {S : Type 0}
    → (String → Option String)
    → String
    → String
    → Option S
    → Option ScopeBinding
    → Option (Resolver S)
unfolding normalize_binding is_valid_binding
new_resolver abs provider root store default =
    let provider' = or_text (trim_space provider) "qm" in
    let root' = trim_space root in
    if has_unsafe provider' then none else elim (if root' == "" then some "" else abs root') [
      | none ↦ none
      | some path ↦ elim default [
        | none ↦
            some (record { provider = provider'; scope_root = path; store = store; bindings = [] })
        | some b ↦
            let b' = normalize_binding b provider' in
            if is_valid_binding b'
            then some (record {
              provider = provider';
              scope_root = path;
              store = store;
              bindings = (b'.external_scope_id, b') ∷ [];
            })
            else none
      ]
    ]

-- derivedProjectID, filepath.Join, pathWithin, and whether the directory can be made.
pub record Paths : Type 0 where
  pub derived_project_id : String → String → String
  pub join : String → String → String
  pub path_within : String → String → Bool
  pub mkdir : String → Bool

module _ {S : Type 0} (ops : BindingStore S) where
  -- The map in memory; the kind is not looked at.
  abbrev pub from_memory : Resolver S → String → Result ScopeBinding
  from_memory r scope = elim (lookup scope r.bindings) [
    | none ↦ err not_found
    | some b ↦ validate_resolved b
  ]

  abbrev pub from_store : Resolver S → String → String → Lookup → Result ScopeBinding
  from_store r scope kind (found b) =
      if b.kind == kind || kind == "" then validate_resolved b else err invalid
  from_store r scope kind no_rows = from_memory r scope
  from_store r scope kind (broken mentions) = err (store_error mentions)

  abbrev pub resolve_at : Resolver S → String → String → Option S → Result ScopeBinding
  resolve_at r scope kind none = from_memory r scope
  resolve_at r scope kind (some s) =
      from_store r scope kind (ops.get_scope_binding s r.provider scope)

  unfoldable pub resolve_ref : Resolver S → String → String → Result ScopeBinding
  resolve_ref r scope kind = resolve_at r scope kind r.store

  unfoldable pub resolve : Resolver S → String → String → Result ScopeBinding
  unfolding normalize_ref resolve_ref
  resolve r scope kind = elim (normalize_ref scope kind) [
    | err e ↦ err e
    | ok (scope', kind') ↦ resolve_ref r scope' kind'
  ]

  abbrev pub project_of : ScopeBinding → Project
  project_of b = record {
    id = b.project_id;
    name = b.project_name;
    root_path = b.root_path;
    created_at = b.created_at;
    updated_at = b.updated_at;
  }

  abbrev pub remember : ScopeBinding → Resolver S → Resolver S
  remember b r = record r { bindings = set b.external_scope_id b r.bindings }

  -- The upserts of a store, the first that fails ending them.
  abbrev pub persist_in : Resolver S → ScopeBinding → S → Resolver S × Bool
  persist_in r b s =
      let (s', stored) = ops.upsert_project s (project_of b) in
      let (s'', bound) = ops.upsert_scope_binding s' b in
      if not stored
      then (record r { store = some s' }, false)
      else (if bound
          then (remember b (record r { store = some s'' }), true)
          else (record r { store = some s'' }, false))

  -- The errors of the store do not name ErrNotFound.
  abbrev pub persist_at : Resolver S → ScopeBinding → Option S → Resolver S × Result ScopeBinding
  persist_at r b none = (remember b r, ok b)
  persist_at r b (some s) =
      let (r', stored) = persist_in r b s in (r', if stored then ok b else err (store_error false))

  unfoldable pub persist : Resolver S → ScopeBinding → Resolver S × Result ScopeBinding
  unfolding is_valid_binding
  persist r b = if not (is_valid_binding b) then (r, err invalid) else persist_at r b r.store

  unfoldable pub register : Resolver S → ScopeBinding → Resolver S × Result ScopeBinding
  unfolding normalize_binding persist
  register r b = persist r (normalize_binding b r.provider)

  -- What Ensure makes of a binding that is there.
  abbrev pub renewed : ℕ → String → String → ScopeBinding → ScopeBinding
  renewed now organization name b = record b {
    project_name = if name == "" then b.project_name else trim_space name;
    organization_id = if organization == "" then b.organization_id else trim_space organization;
    status = if trim_space b.status == "" then "empty" else b.status;
    updated_at = now;
  }

  abbrev pub new_binding : ℕ → Paths → Resolver S → String → String → String → String → ScopeBinding
  new_binding now paths r scope kind organization name =
      let id = paths.derived_project_id r.provider scope in
      record {
        provider = r.provider;
        external_scope_id = scope;
        kind = kind;
        organization_id = trim_space organization;
        project_id = id;
        project_name = or_text (trim_space name) scope;
        root_path = paths.join r.scope_root id;
        status = "empty";
        created_at = now;
        updated_at = now;
      }

  unfoldable pub provision :
      ℕ → Paths → Resolver S → String → String → String → String → Resolver S × Result ScopeBinding
  unfolding persist
  provision now paths r scope kind organization name =
      let b = new_binding now paths r scope kind organization name in
      if r.scope_root == ""
      then (r, err not_configured)
      else if not (paths.path_within r.scope_root b.root_path)
      then (r, err path_outside_root)
      else if not (paths.mkdir b.root_path)
      then (r, err no_directory)
      else persist r b

  -- Whether Ensure goes on after an error of Resolve.
  abbrev pub is_missing : Error → Bool
  is_missing not_found = true
  is_missing (store_error mentions) = mentions
  is_missing invalid = false
  is_missing not_configured = false
  is_missing path_outside_root = false
  is_missing no_directory = false

  abbrev pub ensure_after :
      ℕ
      → Paths
      → Resolver S
      → String
      → String
      → String
      → String
      → Result ScopeBinding
      → Resolver S × Result ScopeBinding
  ensure_after now paths r scope kind organization name (ok b) =
      persist r (renewed now organization name b)
  ensure_after now paths r scope kind organization name (err e) =
      if is_missing e then provision now paths r scope kind organization name else (r, err e)

  unfoldable pub ensure :
      ℕ → Paths → Resolver S → String → String → String → String → Resolver S × Result ScopeBinding
  unfolding normalize_ref resolve provision persist
  ensure now paths r scope kind organization name = elim (normalize_ref scope kind) [
    | err e ↦ (r, err e)
    | ok (scope', kind') ↦
        ensure_after now paths r scope' kind' organization name (resolve r scope' kind')
  ]
