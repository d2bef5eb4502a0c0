-- ===== src/Acl/Same.antt =====
-- What sameGrants says of two lists whose first has no grant twice.
use mathlib.Core.Bool.{false≢true}
use knowlega.Base.{
  if◌then◌else◌, ◌∙◌, suc, ◌≡◌, refl, sym, ap, subst, inl, inr, true, false, List, [], ◌∷◌, arith,
  eq_iff, eq_refl, length, any, Bool-cases,
}
use knowlega.Acl.Grants.{Grant, same_grant, all_found, same_grants}

-- No grant stands twice.
abbrev pub Distinct : List Grant → Type 0
Distinct [] = Unit
Distinct (g ∷ grants) = (any (same_grant g) grants ≡ false) × Distinct grants

same_grant-eq : (g h : Grant) → same_grant g h ≡ true → g ≡ h
same_grant-eq g h e = ground (
  arith,
  e,
  eq_iff g.owner_scope_id h.owner_scope_id,
  eq_iff g.path h.path,
  eq_iff g.grantee_scope_id h.grantee_scope_id,
  eq_iff g.permission h.permission,
  eq_iff g.granted_by h.granted_by,
)

same_grant_refl : (g : Grant) → same_grant g g ≡ true
same_grant_refl g =
    rw
      (
        eq_refl g.owner_scope_id,
        eq_refl g.path,
        eq_refl g.grantee_scope_id,
        eq_refl g.permission,
        eq_refl g.granted_by,
      )
      refl

-- The list without the first grant that is the same.
abbrev remove_first : Grant → List Grant → List Grant
remove_first g [] = []
remove_first g (h ∷ hs) = if same_grant g h then hs else h ∷ remove_first g hs

length-remove_first :
    (g : Grant) (hs : List Grant)
    → any (same_grant g) hs ≡ true
    → suc (length (remove_first g hs)) ≡ length hs
length-remove_first g [] h = absurd (ground (arith, h))
length-remove_first g (x ∷ hs) h = elim (Bool-cases (same_grant g x)) [
  | inl e ↦ rw e refl
  | inr e ↦ rw e (ap (λ n. suc n) (length-remove_first g hs (rw e at h)))
]

-- Another grant is still found.
any-remove_first :
    (g k : Grant) (hs : List Grant)
    → same_grant k g ≡ false
    → any (same_grant k) hs ≡ true
    → any (same_grant k) (remove_first g hs) ≡ true
any-remove_first g k [] other h = h
any-remove_first g k (x ∷ hs) other h = elim (Bool-cases (same_grant g x)) [
  | inl e ↦
      let apart : same_grant k x ≡ false =
        subst (λ y. same_grant k y ≡ false) (same_grant-eq g x e) other in
      rw e (rw apart at h)
  | inr e ↦ rw e (elim (Bool-cases (same_grant k x)) [
    | inl f ↦ rw f refl
    | inr f ↦ rw f (any-remove_first g k hs other (rw f at h))
  ])
]

same_grant-false : (g k : Grant) → same_grant g k ≡ false → same_grant k g ≡ false
same_grant-false g k h = elim (Bool-cases (same_grant k g)) [
  | inr e ↦ e
  | inl e ↦ absurd (
      false≢true (
        sym h ∙ subst (λ x. same_grant g x ≡ true) (sym (same_grant-eq k g e)) (same_grant_refl g)))
]

all_found-remove_first :
    (g : Grant) (left right : List Grant)
    → any (same_grant g) left ≡ false
    → all_found left right ≡ true
    → all_found left (remove_first g right) ≡ true
all_found-remove_first g [] right apart h = refl
all_found-remove_first g (k ∷ left) right apart h =
    let here : any (same_grant k) right ≡ true = ground (arith, h) in
    let others : all_found left right ≡ true = ground (arith, h) in
    let other : same_grant g k ≡ false = ground (arith, apart) in
    let rest : any (same_grant g) left ≡ false = ground (arith, apart) in
    rw (any-remove_first g k right (same_grant-false g k other) here)
      (all_found-remove_first g left right rest others)

all_found-covers :
    (left right : List Grant) (h : Grant)
    → length left ≡ length right
    → all_found left right ≡ true
    → Distinct left
    → any (same_grant h) right ≡ true
    → any (same_grant h) left ≡ true
all_found-covers [] [] h same found d m = m
all_found-covers [] (x ∷ right) h same found d m = absurd (omega (arith, same))
all_found-covers (g ∷ left) right h same found d m = elim (Bool-cases (same_grant h g)) [
  | inl e ↦ rw e refl
  | inr e ↦
      let here : any (same_grant g) right ≡ true = ground (arith, found) in
      let others : all_found left right ≡ true = ground (arith, found) in
      rw e (
        all_found-covers left (remove_first g right) h
          (omega (arith, same, length-remove_first g right here))
          (all_found-remove_first g left right d.0 others) d.1 (any-remove_first g h right e m))
]

all_found-any :
    (left right : List Grant) (h : Grant)
    → all_found left right ≡ true
    → any (same_grant h) left ≡ true
    → any (same_grant h) right ≡ true
all_found-any [] right h found m = absurd (ground (arith, m))
all_found-any (g ∷ left) right h found m = elim (Bool-cases (same_grant h g)) [
  | inl e ↦
      let here : any (same_grant g) right ≡ true = ground (arith, found) in
      subst (λ x. any (same_grant x) right ≡ true) (sym (same_grant-eq h g e)) here
  | inr e ↦
      let others : all_found left right ≡ true = ground (arith, found) in
      all_found-any left right h others (rw e at m)
]

-- Two lists that sameGrants takes as the same, where the first has no grant twice, have the same
-- grants: one is in the second exactly when it is in the first.
pub same_grants-any :
    (left right : List Grant) (h : Grant)
    → Distinct left
    → same_grants left right ≡ true
    → any (same_grant h) right ≡ any (same_grant h) left
unfolding same_grants
same_grants-any left right h d same =
    let found : all_found left right ≡ true = ground (arith, same) in
    let long : length left ≡ length right = ground (arith, same) in
    elim (Bool-cases (any (same_grant h) right)) [
      | inl e ↦ e ∙ sym (all_found-covers left right h long found d e)
      | inr e ↦ elim (Bool-cases (any (same_grant h) left)) [
        | inl f ↦ absurd (false≢true (sym e ∙ all_found-any left right h found f))
        | inr f ↦ e ∙ sym f
      ]
    ]
