-- ===== src/PageGate/Tests.antt =====
-- A decision on two new pages.
use knowlega.Base.{String, ◌≡◌, refl, true, some, List, [], ◌∷◌}
use knowlega.Base.Text.{trim_space}
use knowlega.PageGate.Decide.{
  FileBlock, NewPageGateDecision, gated, Project, decision, rejection_review, decide,
  apply_new_page_gate,
}
use knowlega.PageGate.Kept.{Passed, decide-Passed}

abbrev files : List FileBlock
files =
    record { path = "wiki/a.md"; content = "a" } ∷ record { path = "wiki/b.md"; content = "b" } ∷ []

abbrev answer : NewPageGateDecision
answer = record {
  accepted = " wiki/a.md" ∷ [];
  rejected = record { path = "wiki/b.md"; reason = "a label" } ∷ [];
}

abbrev project : Project
project = record { page_type = λ content. some "entity"; missing = λ path. true }

one_kept :
    apply_new_page_gate project (λ candidates. decision answer) files []
    ≡ gated
        (record { path = "wiki/a.md"; content = "a" } ∷ [])
        (rejection_review "wiki/b.md" "a label" ∷ [])
unfolding apply_new_page_gate trim_space
one_kept = refl

abbrev paths : List String
paths = "wiki/a.md" ∷ "wiki/b.md" ∷ []

decide-Passed_example : Passed paths answer files [] (decide paths answer files [])
decide-Passed_example = decide-Passed paths answer files []
