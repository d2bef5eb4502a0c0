-- ===== src/Base/Maps.antt =====
-- Go's maps with text keys as lists of pairs.
use Prim.Native.String.{String}
use mathlib.Core.Path.{◌≡◌, refl, ap}
use mathlib.Core.Logic.{inl, inr}
use mathlib.Core.Bool.{false, not}
use mathlib.Core.Option.{Option, none, some}
use mathlib.Core.List.{List, [], ◌∷◌}
use native.Mathlib.Omega.{arith}
use text.Mathlib.Text.{◌==◌}
use text.Mathlib.TextEquality.{eq_iff}
use text.Mathlib.TextPositions.{eq_refl}
use knowlega.Base.Tests.{if◌then◌else◌, Bool-cases}
use knowlega.Base.Lists.{keep_if}

module _ {V : Type 0} where
  abbrev pub lookup : String → List (String × V) → Option V
  lookup k [] = none
  lookup k ((j, v) ∷ d) = if k == j then some v else lookup k d

  -- d[k] = v
  abbrev pub set : String → V → List (String × V) → List (String × V)
  set k v [] = (k, v) ∷ []
  set k v ((j, u) ∷ d) = if k == j then (k, v) ∷ d else (j, u) ∷ set k v d

  -- delete(d, k)
  abbrev pub remove : String → List (String × V) → List (String × V)
  remove k d = keep_if (λ e. not (k == e.0)) d

  -- for k, v := range changes { d[k] = v }; the keys are different, so their order does not matter.
  abbrev pub set_all : List (String × V) → List (String × V) → List (String × V)
  set_all [] d = d
  set_all ((k, v) ∷ changes) d = set k v (set_all changes d)

  abbrev pub remove_all : List String → List (String × V) → List (String × V)
  remove_all [] d = d
  remove_all (k ∷ ks) d = remove_all ks (remove k d)

  pub lookup-set_self : (k : String) (v : V) (d : List (String × V)) → lookup k (set k v d) ≡ some v
  lookup-set_self k v [] = rw (eq_refl k) refl
  lookup-set_self k v (e ∷ d) = elim (Bool-cases (k == e.0)) [
    | inl h ↦ rw h (rw (eq_refl k) refl)
    | inr h ↦ rw h (rw h (lookup-set_self k v d))
  ]

  pub lookup-set_other :
      (j k : String) (v : V) (d : List (String × V))
      → (j == k) ≡ false
      → lookup j (set k v d) ≡ lookup j d
  lookup-set_other j k v [] h = rw h refl
  lookup-set_other j k v (e ∷ d) h = elim (Bool-cases (k == e.0)) [
    | inl f ↦
        let same : (j == e.0) ≡ false =
          ground (arith, h, f, eq_iff k e.0, eq_iff j e.0, eq_iff j k) in
        rw f (rw (h, same) refl)
    | inr f ↦ rw f (ap (λ o. if j == e.0 then some e.1 else o) (lookup-set_other j k v d h))
  ]

  pub lookup-remove_self : (k : String) (d : List (String × V)) → lookup k (remove k d) ≡ none
  lookup-remove_self k [] = refl
  lookup-remove_self k (e ∷ d) = elim (Bool-cases (k == e.0)) [
    | inl h ↦ rw h (lookup-remove_self k d)
    | inr h ↦ rw h (rw h (lookup-remove_self k d))
  ]

  pub lookup-remove_other :
      (j k : String) (d : List (String × V)) → (j == k) ≡ false → lookup j (remove k d) ≡ lookup j d
  lookup-remove_other j k [] h = refl
  lookup-remove_other j k (e ∷ d) h = elim (Bool-cases (k == e.0)) [
    | inl f ↦
        let other : (j == e.0) ≡ false =
          ground (arith, h, f, eq_iff k e.0, eq_iff j e.0, eq_iff j k) in
        rw f (rw other (lookup-remove_other j k d h))
    | inr f ↦ rw f (ap (λ o. if j == e.0 then some e.1 else o) (lookup-remove_other j k d h))
  ]
