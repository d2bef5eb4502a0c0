-- ===== src/PageGate/Kept.antt =====
-- No new page is kept that the gate has not accepted, and a review is added for each file that is dropped.
use mathlib.Core.Bool.{false≢true}
use knowlega.Base.{
  ◌+◌, String, ◌≡◌, ◌⊎◌, refl, sym, ◌∙◌, subst, inl, inr, Bool, true, false, not, ◌&&◌, Option,
  none, some, List, [], ◌∷◌, arith, ◌==◌, elem, length, length-append, is_some, All, In, elem_iff,
  Bool-cases, Option-cases,
}
use knowlega.PageGate.Decide.{
  FileBlock, NewPageGateDecision, ReviewBlock, Gated, gated, omitted, gate_error, is_accepted,
  rejected_for, reason_text, first_omitted, dropped_reviews, kept_files, decide,
}

abbrev Judged : (String → Bool) → (String → Option String) → String → Type 0
Judged accepted reason c = (accepted c ≡ true) ⊎ (is_some (reason c) ≡ true)

judged :
    (a : Bool) (r : Option String)
    → (not a && reason_text r == "") ≡ false
    → (a ≡ true) ⊎ (is_some r ≡ true)
judged true r h = inl refl
judged false (some r) h = inr refl
judged false none h = absurd (false≢true (sym h))

-- Either a candidate is neither accepted nor rejected with a reason, or each is accepted or rejected.
First : (String → Bool) → (String → Option String) → List String → Option String → Type 0
First accepted reason candidates none = All (Judged accepted reason) candidates
First accepted reason candidates (some c) =
    In c candidates × (accepted c ≡ false) × ((reason_text (reason c) == "") ≡ true)

First-behind :
    (accepted : String → Bool) (reason : String → Option String) (c : String)
    (candidates : List String) (o : Option String)
    → Judged accepted reason c
    → First accepted reason candidates o
    → First accepted reason (c ∷ candidates) o
unfolding First
First-behind accepted reason c candidates none j h = (j, h)
First-behind accepted reason c candidates (some d) j h = (inr h.0, h.1, h.2)

first_omitted-First :
    (accepted : String → Bool) (reason : String → Option String) (candidates : List String)
    → First accepted reason candidates (first_omitted accepted reason candidates)
unfolding first_omitted
first_omitted-First accepted reason [] = unfold First in tt
first_omitted-First accepted reason (c ∷ candidates) =
    elim (Bool-cases (not (accepted c) && reason_text (reason c) == "")) [
      | inl e ↦ rw e (unfold First in (inl refl, ground (arith, e), ground (arith, e)))
      | inr e ↦ rw e (
          First-behind accepted reason c candidates _ (judged (accepted c) (reason c) e)
            (first_omitted-First accepted reason candidates))
    ]

All-In : (P : String → Type 0) (xs : List String) (x : String) → All P xs → In x xs → P x
All-In P [] x h m = elim m [ ]
All-In P (y ∷ ys) x h (inl e) = subst P (sym e) h.0
All-In P (y ∷ ys) x h (inr m) = All-In P ys x h.1 m

-- A file that is no candidate, or one that the gate accepted.
abbrev pub Allowed : List String → NewPageGateDecision → FileBlock → Type 0
Allowed candidates d f = (elem f.path candidates ≡ false) ⊎ (is_accepted candidates d f.path ≡ true)

kept_files-Allowed :
    (candidates : List String) (d : NewPageGateDecision) (files : List FileBlock)
    → All (Judged (is_accepted candidates d) (rejected_for candidates d)) candidates
    → All (Allowed candidates d) (kept_files (rejected_for candidates d) files)
unfolding kept_files
kept_files-Allowed candidates d [] h = tt
kept_files-Allowed candidates d (f ∷ files) h =
    elim (Bool-cases (is_some (rejected_for candidates d f.path))) [
      | inl e ↦ rw e (kept_files-Allowed candidates d files h)
      | inr e ↦ rw e (
        elim (Bool-cases (elem f.path candidates)) [
          | inr m ↦ inl m
          | inl m ↦ elim (All-In _ candidates f.path h ((elem_iff f.path candidates).0 m)) [
            | inl a ↦ inr a
            | inr r ↦ absurd (false≢true (sym e ∙ r))
          ]
        ],
        kept_files-Allowed candidates d files h,
      )
    ]

length-kept_dropped :
    (accepted : String → Bool) (reason : String → Option String) (files : List FileBlock)
    → length (kept_files reason files) + length (dropped_reviews accepted reason files)
      ≡ length files
unfolding kept_files dropped_reviews
length-kept_dropped accepted reason [] = omega arith
length-kept_dropped accepted reason (f ∷ files) = elim (Option-cases (reason f.path)) [
  | inl e ↦ rw (e, dropped_reviews) (omega (arith, length-kept_dropped accepted reason files))
  | inr (r, e) ↦ rw (e, dropped_reviews) (omega (arith, length-kept_dropped accepted reason files))
]

-- What a decision may come to.
pub Passed : List String → NewPageGateDecision → List FileBlock → List ReviewBlock → Gated → Type 0
Passed candidates d files reviews (gate_error e) = ⊥
Passed candidates d files reviews (omitted c) =
    In c candidates
    × (is_accepted candidates d c ≡ false)
    × ((reason_text (rejected_for candidates d c) == "") ≡ true)
Passed candidates d files reviews (gated kept reviews') =
    All (Allowed candidates d) kept
    × (length kept + length reviews' ≡ length files + length reviews)

-- The decision on new pages: when it is applied, each file that is kept is no candidate or one that
-- the gate accepted, and as many reviews are added as files are dropped; when it is not, the candidate that
-- the error names is one that the gate neither accepted nor rejected with a reason.
pub decide-Passed :
    (candidates : List String) (d : NewPageGateDecision) (files : List FileBlock)
    (reviews : List ReviewBlock)
    → Passed candidates d files reviews (decide candidates d files reviews)
unfolding decide Passed
decide-Passed candidates d files reviews =
    let first =
      first_omitted-First (is_accepted candidates d) (rejected_for candidates d) candidates in
    elim (Option-cases
      (first_omitted (is_accepted candidates d) (rejected_for candidates d) candidates)) [
        | inl e ↦
            rw (e, decide)
              (
                kept_files-Allowed candidates d files (unfold First in subst (First _ _ _) e first),
                rw
                    (length-append reviews (
                      dropped_reviews (is_accepted candidates d) (rejected_for candidates d) files))
                    (omega (
                      arith,
                      length-kept_dropped (is_accepted candidates d) (rejected_for candidates d)
                          files,
                    )),
              )
        | inr (c, e) ↦ rw (e, decide) (unfold First in subst (First _ _ _) e first)
      ]
