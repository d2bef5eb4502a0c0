-- ===== src/Acl/Replaced.antt =====
-- ReplaceResource is a compare-and-swap of the grants of one resource.
use knowlega.Base.{
  String, ◌≡◌, refl, sym, ap, ◌∙◌, ◌⊎◌, ◌≢◌, inl, inr, Bool, true, not, ◌||◌, List, [], ◌∷◌, ◌++◌,
  arith, eq_refl, any, keep_if, Bool-cases,
}
use knowlega.Acl.Grants.{
  Grant, same_key, same_grants, of_resource, known_permission, Replaced, replaced, not_current,
  invalid_grant, key_taken, insert_grants, committed, replace_resource, put,
}

module _ {A : Type 0} where
  keep_if-append :
      (p : A → Bool) (xs ys : List A) → keep_if p (xs ++ ys) ≡ keep_if p xs ++ keep_if p ys
  keep_if-append p [] ys = refl
  keep_if-append p (x ∷ xs) ys = elim (Bool-cases (p x)) [
    | inl e ↦ rw e (ap (λ l. x ∷ l) (keep_if-append p xs ys))
    | inr e ↦ rw e (keep_if-append p xs ys)
  ]

  keep_if-twice : (p : A → Bool) (xs : List A) → keep_if p (keep_if p xs) ≡ keep_if p xs
  keep_if-twice p [] = refl
  keep_if-twice p (x ∷ xs) = elim (Bool-cases (p x)) [
    | inl e ↦ rw e (rw e (ap (λ l. x ∷ l) (keep_if-twice p xs)))
    | inr e ↦ rw e (keep_if-twice p xs)
  ]

  keep_if-none : (p : A → Bool) (xs : List A) → keep_if p (keep_if (λ x. not (p x)) xs) ≡ []
  keep_if-none p [] = refl
  keep_if-none p (x ∷ xs) = elim (Bool-cases (p x)) [
    | inl e ↦ rw e (keep_if-none p xs)
    | inr e ↦ rw e (rw e (keep_if-none p xs))
  ]

-- A successful insertion has put the grants behind the rows, and all are the resource's.
Inserted : String → String → List Grant → List Grant → List Grant × Replaced → Type 0
Inserted owner path grants rows (rows', replaced) =
    (rows' ≡ rows ++ grants)
    × (keep_if (of_resource owner path) grants ≡ grants)
    × (keep_if (λ g. not (of_resource owner path g)) grants ≡ [])
Inserted owner path grants rows (rows', not_current) = ⊥
Inserted owner path grants rows (rows', invalid_grant) = Unit
Inserted owner path grants rows (rows', key_taken) = Unit

append_nil : (xs : List Grant) → xs ≡ xs ++ []
append_nil [] = refl
append_nil (x ∷ xs) = ap (λ l. x ∷ l) (append_nil xs)

snoc_append : (xs : List Grant) (y : Grant) (ys : List Grant) → (xs ++ y ∷ []) ++ ys ≡ xs ++ y ∷ ys
snoc_append [] y ys = refl
snoc_append (x ∷ xs) y ys = ap (λ l. x ∷ l) (snoc_append xs y ys)

Inserted-behind :
    (owner path : String) (g : Grant) (grants rows : List Grant) (o : List Grant × Replaced)
    → of_resource owner path g ≡ true
    → Inserted owner path grants (rows ++ g ∷ []) o
    → Inserted owner path (g ∷ grants) rows o
unfolding Inserted
Inserted-behind owner path g grants rows (rows', replaced) e h =
    (h.0 ∙ snoc_append rows g grants, rw e (ap (λ l. g ∷ l) h.1), rw e h.2)
Inserted-behind owner path g grants rows (rows', not_current) e h = h
Inserted-behind owner path g grants rows (rows', invalid_grant) e h = tt
Inserted-behind owner path g grants rows (rows', key_taken) e h = tt

insert_grants-Inserted :
    (owner path : String) (grants rows : List Grant)
    → Inserted owner path grants rows (insert_grants owner path grants rows)
unfolding insert_grants
insert_grants-Inserted owner path [] rows = unfold Inserted in (append_nil rows, refl, refl)
insert_grants-Inserted owner path (g ∷ grants) rows =
    elim (Bool-cases (not (of_resource owner path g) || not (known_permission g))) [
      | inl e ↦ rw e (unfold Inserted in tt)
      | inr e ↦ elim (Bool-cases (any (same_key g) rows)) [
        | inl f ↦ rw (e, f) (unfold Inserted in tt)
        | inr f ↦
            rw (e, f)
              (Inserted-behind owner path g grants rows _ (ground (arith, e))
                (insert_grants-Inserted owner path grants (rows ++ g ∷ [])))
      ]
    ]

-- Either the grants of the resource are the replacement and all others as before, or no grant has
-- changed.
abbrev pub Swapped : String → String → List Grant → List Grant → List Grant × Replaced → Type 0
Swapped owner path replacement rows o =
    ((o.1 ≡ replaced)
      × (keep_if (of_resource owner path) o.0 ≡ replacement)
      × (keep_if (λ g. not (of_resource owner path g)) o.0
          ≡ keep_if (λ g. not (of_resource owner path g)) rows))
    ⊎ ((o.1 ≢ replaced) × (o.0 ≡ rows))

committed-Swapped :
    (owner path : String) (replacement rows : List Grant) (o : List Grant × Replaced)
    → Inserted owner path replacement (keep_if (λ g. not (of_resource owner path g)) rows) o
    → Swapped owner path replacement rows (committed rows o)
unfolding Inserted
committed-Swapped owner path replacement rows (rows', replaced) h = inl (
  refl,
  rw h.0 (
      rw
        (keep_if-append (of_resource owner path)
          (keep_if (λ g. not (of_resource owner path g)) rows) replacement)
        (rw (keep_if-none (of_resource owner path) rows) h.1)),
  rw h.0 (
      rw
        (keep_if-append (λ g. not (of_resource owner path g))
          (keep_if (λ g. not (of_resource owner path g)) rows) replacement)
        (rw (keep_if-twice (λ g. not (of_resource owner path g)) rows, h.2) (sym (append_nil _)))),
)
committed-Swapped owner path replacement rows (rows', not_current) h = absurd h
committed-Swapped owner path replacement rows (rows', invalid_grant) h = inr ((λ e. cc), refl)
committed-Swapped owner path replacement rows (rows', key_taken) h = inr ((λ e. cc), refl)

-- ReplaceResource either succeeds, and then the grants of the resource are the replacement in its
-- order and the other grants are as before, or it does not, and then no grant has changed.
pub replace_resource-Swapped :
    (owner path : String) (expected replacement rows : List Grant)
    → Swapped owner path replacement rows (replace_resource owner path expected replacement rows)
unfolding replace_resource
replace_resource-Swapped owner path expected replacement rows =
    elim (Bool-cases (same_grants (keep_if (of_resource owner path) rows) expected)) [
      | inl e ↦ rw e (
          committed-Swapped owner path replacement rows _ (
            insert_grants-Inserted owner path replacement
              (keep_if (λ g. not (of_resource owner path g)) rows)))
      | inr e ↦ rw e (inr ((λ e. cc), refl))
    ]

same_key_refl : (g : Grant) → same_key g g ≡ true
same_key_refl g =
    rw (eq_refl g.owner_scope_id, eq_refl g.path, eq_refl g.grantee_scope_id, eq_refl g.permission)
      refl

any-snoc : (g : Grant) (rows : List Grant) → any (same_key g) (rows ++ g ∷ []) ≡ true
any-snoc g [] = rw (same_key_refl g) refl
any-snoc g (r ∷ rows) = rw (any-snoc g rows) (ground arith)

-- Put is idempotent: putting the same grant again changes nothing and gives the same answer.
pub put-put : (g : Grant) (rows : List Grant) → put g (put g rows).0 ≡ put g rows
unfolding put
put-put g rows = elim (Bool-cases (known_permission g)) [
  | inr k ↦ rw k refl
  | inl k ↦ elim (Bool-cases (any (same_key g) rows)) [
    | inl e ↦ rw (k, e) (rw e refl)
    | inr e ↦ rw (k, e) (rw (any-snoc g rows) refl)
  ]
]
