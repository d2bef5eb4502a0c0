-- ===== src/PageGate/Decide.antt =====
-- applyNewPageGate from the candidates to the files that are kept; the downgrade of the links to pages
-- that are not kept follows it and is not modelled.
use Prim.Native.String as S
use knowlega.Base.Text.{trim_space}
use knowlega.Base.{
  String, Bool, false, not, ◌&&◌, Option, none, some, List, [], ◌∷◌, ◌++◌, map, ◌==◌, if◌then◌else◌,
  elem, keep_if, is_some,
}

pub record FileBlock : Type 0 where
  pub path : String
  pub content : String

pub record NewPageRejection : Type 0 where
  pub path : String
  pub reason : String

pub record NewPageGateDecision : Type 0 where
  pub accepted : List String
  pub rejected : List NewPageRejection

pub record ReviewBlock : Type 0 where
  pub kind : String
  pub title : String
  pub body : String

pub data Gated : Type 0 where
  gate_error : String → Gated
  omitted : String → Gated
  gated : List FileBlock → List ReviewBlock → Gated

-- What the gate answers.
pub data GateAnswer : Type 0 where
  no_answer : String → GateAnswer
  decision : NewPageGateDecision → GateAnswer

-- The type in the front matter of a file, if it can be parsed, and whether the file is there.
pub record Project : Type 0 where
  pub page_type : String → Option String
  pub missing : String → Bool

abbrev pub has_other_type : Option String → Bool
has_other_type none = false
has_other_type (some t) = not (trim_space t == "source-summary")

-- The new pages that are no source summary.
unfoldable pub is_candidate : Project → FileBlock → Bool
is_candidate project f = has_other_type (project.page_type f.content) && project.missing f.path

unfoldable pub candidate_paths : Project → List FileBlock → List String
unfolding is_candidate
candidate_paths project files =
    map (λ (f : FileBlock). f.path) (keep_if (is_candidate project) files)

-- Paths that are no candidates are passed over.
unfoldable pub is_accepted : List String → NewPageGateDecision → String → Bool
is_accepted candidates d path =
    elem path candidates && elem path (map (λ p. trim_space p) d.accepted)

-- The reason of the last rejection of the path.
unfoldable pub last_reason : String → List NewPageRejection → Option String
last_reason path [] = none
last_reason path (r ∷ rejected) =
    let later = last_reason path rejected in
    elim later [
      | some reason ↦ some reason
      | none ↦ if path == trim_space r.path then some (trim_space r.reason) else none
    ]

unfoldable pub rejected_for : List String → NewPageGateDecision → String → Option String
unfolding last_reason
rejected_for candidates d path =
    let reason = last_reason path d.rejected in if elem path candidates then reason else none

abbrev pub reason_text : Option String → String
reason_text none = ""
reason_text (some r) = r

-- Rejection wins over acceptance; the reason says so.
abbrev pub final_reason : Bool → String → String
final_reason both reason =
    if both && not (reason == "")
    then S.◌++◌ reason "; gate returned both accepted and rejected, so rejection won conservatively"
    else reason

-- The first candidate that is neither accepted nor rejected with a reason.
unfoldable pub first_omitted :
    (String → Bool) → (String → Option String) → List String → Option String
first_omitted accepted reason [] = none
first_omitted accepted reason (c ∷ candidates) =
    let rest = first_omitted accepted reason candidates in
    if not (accepted c) && reason_text (reason c) == "" then some c else rest

unfoldable pub rejection_review : String → String → ReviewBlock
rejection_review path body = record {
  kind = "review-needed";
  title = S.◌++◌ "Durability gate rejected " path;
  body = body;
}

-- The reviews of the files that are dropped.
unfoldable pub dropped_reviews :
    (String → Bool) → (String → Option String) → List FileBlock → List ReviewBlock
unfolding rejection_review
dropped_reviews accepted reason [] = []
dropped_reviews accepted reason (f ∷ files) =
    let rest = dropped_reviews accepted reason files in
    elim (reason f.path) [
      | none ↦ rest
      | some r ↦ rejection_review f.path (final_reason (accepted f.path) r) ∷ rest
    ]

unfoldable pub kept_files : (String → Option String) → List FileBlock → List FileBlock
kept_files reason files = keep_if (λ (f : FileBlock). not (is_some (reason f.path))) files

unfoldable pub decide :
    List String → NewPageGateDecision → List FileBlock → List ReviewBlock → Gated
unfolding is_accepted rejected_for first_omitted dropped_reviews kept_files
decide candidates d files reviews =
    let accepted = is_accepted candidates d in
    let reason = rejected_for candidates d in
    elim (first_omitted accepted reason candidates) [
      | some c ↦ omitted c
      | none ↦ gated (kept_files reason files) (reviews ++ dropped_reviews accepted reason files)
    ]

-- Without candidates the gate is not asked.
unfoldable pub apply_new_page_gate :
    Project → (List String → GateAnswer) → List FileBlock → List ReviewBlock → Gated
unfolding candidate_paths decide
apply_new_page_gate project gate files reviews =
    let candidates = candidate_paths project files in
    elim candidates [
      | [] ↦ gated files reviews
      | c ∷ cs ↦ elim (gate (c ∷ cs)) [
        | no_answer e ↦ gate_error e
        | decision d ↦ decide (c ∷ cs) d files reviews
      ]
    ]
