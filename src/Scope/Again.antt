-- ===== src/Scope/Again.antt =====
-- What Ensure answers is what Resolve answers afterwards.
use knowlega.Base.{
  ℕ, String, false, ◌||◌, ◌≡◌, ◌≢◌, ◌⊎◌, refl, sym, ap, subst, ◌∙◌, inl, inr, Option, none, some,
  List, [], ◌∷◌, ◌==◌, if◌then◌else◌, All, Bool-cases, Option-cases, eq_iff,
}
use knowlega.Base.Maps.{lookup}
use knowlega.Base.Text.{trim_space}
use knowlega.Scope.Binding.{
  ScopeBinding, untimed, Result, ok, err, Lookup, found, no_rows, broken, BindingStore, IsLawful,
  or_text, normalize_ref,
}
use knowlega.Scope.Resolver.{
  Resolver, Paths, from_memory, from_store, resolve_at, resolve_ref, resolve, persist, renewed,
  new_binding, provision, is_missing, ensure_after, ensure,
}
use knowlega.Scope.Ensured.{
  Result-cases, check_ref-same, normalize_ref_idem, validate-live, Settled, Placed, persist-Settled,
}

-- Each binding stands in the map under its scope.
abbrev pub Keyed : List (String × ScopeBinding) → Type 0
Keyed bindings = All (λ e. e.1.external_scope_id ≡ e.0) bindings

lookup-Keyed :
    (scope : String) (b : ScopeBinding) (bindings : List (String × ScopeBinding))
    → Keyed bindings
    → lookup scope bindings ≡ some b
    → b.external_scope_id ≡ scope
lookup-Keyed scope b [] k h = cc
lookup-Keyed scope b ((s, c) ∷ bindings) k h = elim (Bool-cases (scope == s)) [
  | inl e ↦
      let same : c ≡ b = cc (rw e at h) in
      ap (λ (x : ScopeBinding). x.external_scope_id) (sym same) ∙ k.0 ∙ sym ((eq_iff scope s).0 e)
  | inr e ↦ lookup-Keyed scope b bindings k.1 (rw e at h)
]

renewed-live :
    (now : ℕ) (organization name : String) (b : ScopeBinding)
    → (b.status == "archived") ≡ false
    → ((if trim_space b.status == "" then "empty" else b.status) == "archived") ≡ false
renewed-live now organization name b live = elim (Bool-cases (trim_space b.status == "")) [
  | inl e ↦ rw e refl
  | inr e ↦ rw e live
]

module _ {S : Type 0} (ops : BindingStore S) (law : IsLawful S ops) where
  -- What is known of a binding that Resolve has answered.
  Resolved : Resolver S → String → ScopeBinding → Type 0
  Resolved r scope b =
      (b.external_scope_id ≡ scope)
      × ((b.status == "archived") ≡ false)
      × ((s : S)
          → r.store ≡ some s
          → (r.provider ≡ b.provider) ⊎ (ops.get_scope_binding s r.provider scope ≡ no_rows))

  memory-Resolved :
      (r : Resolver S) (scope : String) (b : ScopeBinding)
      → Keyed r.bindings
      → from_memory ops r scope ≡ ok b
      → (b.external_scope_id ≡ scope) × ((b.status == "archived") ≡ false)
  memory-Resolved r scope b k h = elim (Option-cases (lookup scope r.bindings)) [
    | inl e ↦ cc (rw (e, from_memory) at h)
    | inr (c, e) ↦
        let (same, live) = validate-live c b (rw (e, from_memory) at h) in
        rw same (lookup-Keyed scope c r.bindings k e, live)
  ]

  -- Where the binding came from.
  Known : Resolver S → String → ScopeBinding → Option S → Type 0
  Known r scope b none = Unit
  Known r scope b (some s) =
      (r.provider ≡ b.provider) ⊎ (ops.get_scope_binding s r.provider scope ≡ no_rows)

  from_store-Known :
      (r : Resolver S) (scope kind : String) (b : ScopeBinding) (s : S) (answer : Lookup)
      → Keyed r.bindings
      → ops.get_scope_binding s r.provider scope ≡ answer
      → from_store ops r scope kind answer ≡ ok b
      → (b.external_scope_id ≡ scope)
        × ((b.status == "archived") ≡ false)
        × Known r scope b (some s)
  unfolding Known
  from_store-Known r scope kind b s (found c) k e h =
      elim (Bool-cases (c.kind == kind || kind == "")) [
        | inr other ↦ cc (rw other at h)
        | inl fits ↦
            let (same, live) = validate-live c b (rw fits at h) in
            let (own, named) = law.key s r.provider scope c e in
            rw same (named, live, inl (sym own))
      ]
  from_store-Known r scope kind b s no_rows k e h =
      let (named, live) = memory-Resolved r scope b k h in (named, live, inr e)
  from_store-Known r scope kind b s (broken mentions) k e h = cc

  resolve_at-Known :
      (r : Resolver S) (scope kind : String) (b : ScopeBinding) (o : Option S)
      → Keyed r.bindings
      → resolve_at ops r scope kind o ≡ ok b
      → (b.external_scope_id ≡ scope) × ((b.status == "archived") ≡ false) × Known r scope b o
  resolve_at-Known r scope kind b none k h =
      let (named, live) = memory-Resolved r scope b k h in (named, live, unfold Known in tt)
  resolve_at-Known r scope kind b (some s) k h =
      from_store-Known r scope kind b s (ops.get_scope_binding s r.provider scope) k refl h

  Known-Placed :
      (r : Resolver S) (scope : String) (b c : ScopeBinding) (s : S)
      → b.external_scope_id ≡ scope
      → c.external_scope_id ≡ b.external_scope_id
      → c.provider ≡ b.provider
      → Known r scope b (some s)
      → Placed ops law r c s
  unfolding Known
  Known-Placed r scope b c s named same own (inl mine) = inl (mine ∙ sym own)
  Known-Placed r scope b c s named same own (inr none_there) =
      elim (Bool-cases (r.provider == c.provider)) [
        | inl e ↦ inl ((eq_iff r.provider c.provider).0 e)
        | inr e ↦ inr (e, rw (same ∙ named) none_there)
      ]

  renewed-Settled :
      (now : ℕ) (r : Resolver S) (scope kind organization name : String) (b : ScopeBinding)
      → Keyed r.bindings
      → resolve_ref ops r scope kind ≡ ok b
      → Settled ops law scope kind (persist ops r (renewed ops now organization name b))
  unfolding resolve_ref
  renewed-Settled now r scope kind organization name b k h =
      let new = renewed ops now organization name b in
      let (named, live, known) = resolve_at-Known r scope kind b r.store k h in
      subst (λ x. Settled ops law x kind (persist ops r new)) named
        (persist-Settled ops law r new kind (renewed-live now organization name b live) λ s e.
          Known-Placed r scope b new s named refl refl (subst (λ o. Known r scope b o) e known))

  provision-Settled :
      (now : ℕ) (paths : Paths) (r : Resolver S) (scope kind organization name : String)
      → Settled ops law scope kind (provision ops now paths r scope kind organization name)
  unfolding provision
  provision-Settled now paths r scope kind organization name =
      let b = new_binding ops now paths r scope kind organization name in
      elim (Bool-cases (r.scope_root == "")) [
        | inl e ↦ rw e tt
        | inr e ↦ rw e (elim (Bool-cases (paths.path_within r.scope_root b.root_path)) [
          | inr f ↦ rw f tt
          | inl f ↦ rw f (elim (Bool-cases (paths.mkdir b.root_path)) [
            | inr g ↦ rw g tt
            | inl g ↦ rw g (persist-Settled ops law r b kind refl (λ s e. inl refl))
          ])
        ])
      ]

  ensure_after-Settled :
      (now : ℕ) (paths : Paths) (r : Resolver S) (scope kind organization name : String)
      (answer : Result ScopeBinding)
      → Keyed r.bindings
      → resolve_ref ops r scope kind ≡ answer
      → Settled ops law scope kind
          (ensure_after ops now paths r scope kind organization name answer)
  ensure_after-Settled now paths r scope kind organization name (ok b) k e =
      renewed-Settled now r scope kind organization name b k e
  ensure_after-Settled now paths r scope kind organization name (err e) k h =
      elim (Bool-cases (is_missing ops e)) [
        | inl m ↦ rw m (provision-Settled now paths r scope kind organization name)
        | inr m ↦ rw m tt
      ]

  -- The answer of Ensure is resolved afterwards, or its kind is not the one that was asked for.
  abbrev pub Ensured : String → String → Resolver S × Result ScopeBinding → Type 0
  Ensured scope kind (r, err e) = Unit
  Ensured scope kind (r, ok b) =
      ((c : ScopeBinding) × (resolve ops r scope kind ≡ ok c) × (untimed c ≡ untimed b))
      ⊎ (b.kind ≢ or_text (trim_space kind) "project")

  Settled-Ensured :
      (scope kind s k : String) (o : Resolver S × Result ScopeBinding)
      → normalize_ref scope kind ≡ ok (s, k)
      → k ≡ or_text (trim_space kind) "project"
      → Settled ops law s k o
      → Ensured scope kind o
  unfolding resolve
  Settled-Ensured scope kind s k (r, err e) norm same h = tt
  Settled-Ensured scope kind s k (r, ok b) norm same (inl (c, h, times)) =
      inl (c, rw (norm, resolve) h, times)
  Settled-Ensured scope kind s k (r, ok b) norm same (inr h) = inr (rw (← same) h)

  resolve-ref :
      (r : Resolver S) (s q : String)
      → normalize_ref s q ≡ ok (s, q)
      → resolve ops r s q ≡ resolve_ref ops r s q
  unfolding resolve
  resolve-ref r s q norm = rw (norm, resolve) refl

  -- Over a store that keeps what it is given, but for the times, when the resolver's map has each
  -- binding under its scope: a binding that Ensure answers is, but for its times, what Resolve answers
  -- for the same scope and kind afterwards, unless it has another kind.
  pub ensure-Ensured :
      (now : ℕ) (paths : Paths) (r : Resolver S) (scope kind organization name : String)
      → Keyed r.bindings
      → Ensured scope kind (ensure ops now paths r scope kind organization name)
  unfolding ensure resolve normalize_ref
  ensure-Ensured now paths r scope kind organization name k =
      elim (Result-cases (normalize_ref scope kind)) [
        | inl (e, norm) ↦ rw (norm, ensure) tt
        | inr ((s, q), norm) ↦
            let answer : resolve ops r s q ≡ resolve_ref ops r s q =
              resolve-ref r s q (normalize_ref_idem scope kind s q norm) in
            rw (norm, ensure)
              (Settled-Ensured scope kind s q
                (ensure_after ops now paths r s q organization name (resolve ops r s q)) norm
                (check_ref-same (trim_space scope) (or_text (trim_space kind) "project") s q norm).1
                (ensure_after-Settled now paths r s q organization name (resolve ops r s q) k
                  (sym answer)))
      ]
