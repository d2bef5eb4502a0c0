-- ===== src/Scope/Tests.antt =====
-- A resolver over a store that is a list and has a time of creation of its own.
use knowlega.Base.{
  String, true, ◌&&◌, some, List, [], ◌∷◌, ◌≡◌, refl, sym, ◌==◌, if◌then◌else◌, arith, eq_iff,
  eq_refl, Bool-cases, inl, inr,
}
use knowlega.Base.Text.{trim_space}
use knowlega.Scope.Binding.{
  ScopeBinding, Lookup, found, no_rows, BindingStore, IsLawful, Result, ok, err, not_found, invalid,
  validate_resolved,
}
use knowlega.Scope.Resolver.{Resolver, Paths, resolve, ensure}
use knowlega.Scope.Again.{Ensured, ensure-Ensured}

abbrev find : List ScopeBinding → String → String → Lookup
find [] provider scope = no_rows
find (b ∷ rows) provider scope =
    if provider == b.provider && scope == b.external_scope_id
    then found b
    else find rows provider scope

abbrev rows : BindingStore (List ScopeBinding)
rows = record {
  get_scope_binding = find;
  upsert_project = λ s q. (s, true);
  upsert_scope_binding = λ s b. (record b { created_at = 1 } ∷ s, true);
}

find-key :
    (s : List ScopeBinding) (provider scope : String) (b : ScopeBinding)
    → find s provider scope ≡ found b
    → (b.provider ≡ provider) × (b.external_scope_id ≡ scope)
find-key [] provider scope b h = cc
find-key (c ∷ s) provider scope b h =
    elim (Bool-cases (provider == c.provider && scope == c.external_scope_id)) [
      | inl e ↦
          let same : c ≡ b = ground (arith, rw e at h) in
          rw (sym same) (
            sym ((eq_iff provider c.provider).0 (ground (arith, e))),
            sym ((eq_iff scope c.external_scope_id).0 (ground (arith, e))),
          )
      | inr e ↦ find-key s provider scope b (rw e at h)
    ]

lawful : IsLawful (List ScopeBinding) rows
lawful = record {
  get-upsert = λ s b h. (
    record b { created_at = 1 },
    rw (eq_refl b.provider, eq_refl b.external_scope_id) refl,
    refl,
  );
  key = find-key;
  missing = λ s b q provider scope h. rw h refl;
}

abbrev resolver : Resolver (List ScopeBinding)
resolver = record { provider = "qm"; scope_root = "/data"; store = some []; bindings = [] }

abbrev paths : Paths
paths = record {
  derived_project_id = λ p s. "qm-1";
  join = λ a b. "/data/qm-1";
  path_within = λ a b. true;
  mkdir = λ p. true;
}

unknown : resolve rows resolver "channel:1" "" ≡ err not_found
unfolding resolve trim_space
unknown = refl

unsafe : resolve rows resolver "a/b" "" ≡ err invalid
unfolding resolve trim_space
unsafe = refl

abbrev made : Result ScopeBinding → String
made (ok b) = b.root_path
made (err e) = ""

provisioned : made (ensure rows 7 paths resolver " channel:1" "" "" "Team").1 ≡ "/data/qm-1"
unfolding ensure trim_space
provisioned = refl

resolved_again :
    made (
      resolve rows (ensure rows 7 paths resolver " channel:1" "" "" "Team").0 "channel:1" "project")
    ≡ "/data/qm-1"
unfolding ensure resolve trim_space validate_resolved
resolved_again = refl

ensure-Ensured_example :
    Ensured rows lawful "channel:1" "" (ensure rows 7 paths resolver "channel:1" "" "" "Team")
ensure-Ensured_example = ensure-Ensured rows lawful 7 paths resolver "channel:1" "" "" "Team" tt
