-- ===== src/Scope/Ensured.antt =====
-- A binding that was persisted is the one that is resolved.
use knowlega.Base.{
  String, true, false, ◌≡◌, ◌≢◌, ◌⊎◌, refl, ap, ◌∙◌, inl, inr, Option, none, some, ◌==◌, arith,
  Bool-cases, eq_iff,
}
use knowlega.Base.Maps.{lookup-set_self}
use knowlega.Base.Text.{trim_space, trim_space_idem}
use knowlega.Scope.Binding.{
  ScopeBinding, untimed, Error, Result, ok, err, no_rows, BindingStore, IsLawful, or_text,
  check_ref, normalize_ref, is_valid_binding, validate_resolved,
}
use knowlega.Scope.Resolver.{
  Resolver, from_memory, resolve_ref, project_of, remember, persist_at, persist,
}

pub Result-cases :
    {A : Type 0} (o : Result A) → ((e : Error) × (o ≡ err e)) ⊎ ((a : A) × (o ≡ ok a))
Result-cases (err e) = inl (e, refl)
Result-cases (ok a) = inr (a, refl)

or_text-tight :
    (s : String) → trim_space (or_text (trim_space s) "project") ≡ or_text (trim_space s) "project"
or_text-tight s = elim (Bool-cases (trim_space s == "")) [
  | inl e ↦ rw e (unfold trim_space in refl)
  | inr e ↦ rw e (trim_space_idem s)
]

or_text-again :
    (s : String)
    → or_text (or_text (trim_space s) "project") "project" ≡ or_text (trim_space s) "project"
or_text-again s = elim (Bool-cases (trim_space s == "")) [
  | inl e ↦ rw e refl
  | inr e ↦ rw e (rw e refl)
]

pub check_ref-same :
    (scope kind s k : String) → check_ref scope kind ≡ ok (s, k) → (s ≡ scope) × (k ≡ kind)
unfolding check_ref
check_ref-same scope kind s k h = ground (arith, h)

-- What normalize_ref accepts it accepts again.
pub normalize_ref_idem :
    (scope kind s k : String) → normalize_ref scope kind ≡ ok (s, k) → normalize_ref s k ≡ ok (s, k)
unfolding normalize_ref
normalize_ref_idem scope kind s k h =
    let (p, q) = check_ref-same (trim_space scope) (or_text (trim_space kind) "project") s k h in
    rw (p, q)
      (rw (trim_space_idem scope, or_text-tight kind) (rw (or_text-again kind) (rw (p, q) at h)))

-- A binding that passes the checks is the answer.
pub validate-ok :
    (b : ScopeBinding)
    → is_valid_binding b ≡ true
    → (b.status == "archived") ≡ false
    → validate_resolved b ≡ ok b
unfolding validate_resolved
validate-ok b valid live = rw (valid, live) refl

untimed-ok :
    (b c : ScopeBinding)
    → is_valid_binding b ≡ true
    → (b.status == "archived") ≡ false
    → untimed c ≡ untimed b
    → validate_resolved c ≡ ok c
untimed-ok b c valid live same =
    validate-ok c (unfold is_valid_binding in (ap (λ x. is_valid_binding x) same ∙ valid))
      (ap (λ (x : ScopeBinding). x.status == "archived") same ∙ live)

pub validate-live :
    (b c : ScopeBinding) → validate_resolved b ≡ ok c → (c ≡ b) × ((b.status == "archived") ≡ false)
unfolding validate_resolved
validate-live b c h = ground (arith, h)

module _ {S : Type 0} (ops : BindingStore S) (law : IsLawful S ops) where
  -- The answer is, but for its times, what Resolve gives for the scope, or has another kind.
  abbrev pub Answered : Resolver S → String → String → ScopeBinding → Type 0
  Answered r scope kind b =
      ((c : ScopeBinding) × (resolve_ref ops r scope kind ≡ ok c) × (untimed c ≡ untimed b))
      ⊎ (b.kind ≢ kind)

  memory-ok :
      (r : Resolver S) (b : ScopeBinding)
      → is_valid_binding b ≡ true
      → (b.status == "archived") ≡ false
      → from_memory ops (remember ops b r) b.external_scope_id ≡ ok b
  memory-ok r b valid live =
      rw (lookup-set_self b.external_scope_id b r.bindings, from_memory) (validate-ok b valid live)

  -- A stored binding is found under its own provider and scope, unless its kind is another.
  stored-Answered :
      (r : Resolver S) (b : ScopeBinding) (s : S) (kind : String)
      → is_valid_binding b ≡ true
      → (b.status == "archived") ≡ false
      → r.provider ≡ b.provider
      → (ops.upsert_scope_binding s b).1 ≡ true
      → Answered
          (remember ops b (record r { store = some (ops.upsert_scope_binding s b).0 }))
          b.external_scope_id
          kind
          b
  unfolding resolve_ref
  stored-Answered r b s kind valid live own bound = elim (Bool-cases (b.kind == kind)) [
    | inr e ↦ inr (ground (arith, e, eq_iff b.kind kind))
    | inl e ↦
        let (c, there, same) = law.get-upsert s b bound in
        let fits : (c.kind == kind) ≡ true = ap (λ (x : ScopeBinding). x.kind == kind) same ∙ e in
        inl (c, rw own (rw there (rw fits (untimed-ok b c valid live same))), same)
  ]

  -- The answer of Ensure or of Register.
  abbrev pub Settled : String → String → Resolver S × Result ScopeBinding → Type 0
  Settled scope kind (r, err e) = Unit
  Settled scope kind (r, ok b) = Answered r scope kind b

  -- The binding has the resolver's provider, or the store has none for the scope under that.
  abbrev pub Placed : Resolver S → ScopeBinding → S → Type 0
  Placed r b s =
      (r.provider ≡ b.provider)
      ⊎ (((r.provider == b.provider) ≡ false)
          × (ops.get_scope_binding s r.provider b.external_scope_id ≡ no_rows))

  Placed-Answered :
      (r : Resolver S) (b : ScopeBinding) (s : S) (kind : String)
      → is_valid_binding b ≡ true
      → (b.status == "archived") ≡ false
      → Placed r b s
      → (ops.upsert_scope_binding (ops.upsert_project s (project_of ops b)).0 b).1 ≡ true
      → Answered
          (remember ops b (record r {
            store = some (ops.upsert_scope_binding (ops.upsert_project s (project_of ops b)).0 b).0;
          }))
          b.external_scope_id
          kind
          b
  Placed-Answered r b s kind valid live (inl own) bound =
      stored-Answered r b (ops.upsert_project s (project_of ops b)).0 kind valid live own bound
  Placed-Answered r b s kind valid live (inr (apart, none_there)) bound =
      unfold resolve_ref in
      inl (
        b,
        rw
            (law.missing s b (project_of ops b) r.provider b.external_scope_id (rw apart refl)
              ∙ none_there)
            (memory-ok r b valid live),
        refl,
      )

  persist_at-Settled :
      (r : Resolver S) (b : ScopeBinding) (kind : String) (o : Option S)
      → is_valid_binding b ≡ true
      → (b.status == "archived") ≡ false
      → r.store ≡ o
      → ((s : S) → r.store ≡ some s → Placed r b s)
      → Settled b.external_scope_id kind (persist_at ops r b o)
  unfolding resolve_ref
  persist_at-Settled r b kind none valid live e placed =
      inl (b, rw e (memory-ok r b valid live), refl)
  persist_at-Settled r b kind (some s) valid live e placed =
      elim (Bool-cases (ops.upsert_project s (project_of ops b)).1) [
        | inr lost ↦ rw lost tt
        | inl stored ↦
            elim (Bool-cases
              (ops.upsert_scope_binding (ops.upsert_project s (project_of ops b)).0 b).1) [
                | inr lost ↦ rw (stored, lost) tt
                | inl bound ↦
                    rw (stored, bound) (Placed-Answered r b s kind valid live (placed s e) bound)
              ]
      ]

  pub persist-Settled :
      (r : Resolver S) (b : ScopeBinding) (kind : String)
      → (b.status == "archived") ≡ false
      → ((s : S) → r.store ≡ some s → Placed r b s)
      → Settled b.external_scope_id kind (persist ops r b)
  unfolding persist
  persist-Settled r b kind live placed = elim (Bool-cases (is_valid_binding b)) [
    | inr bad ↦ rw bad tt
    | inl valid ↦ rw valid (persist_at-Settled r b kind r.store valid live refl placed)
  ]
