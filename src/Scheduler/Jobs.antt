-- ===== src/Scheduler/Jobs.antt =====
-- buildImpactJob and resultTouchesPaths (scheduler.go).
use Prim.Native.String as S
use knowlega.Base.{
  ℕ, String, Bool, not, ◌||◌, List, [], ◌∷◌, ◌++◌, map, ◌==◌, if◌then◌else◌, any, elem,
}
use knowlega.Scheduler.Types.{ValidateResult, PageChange, ImpactJob, Env}
use knowlega.Scheduler.Texts.{sort_texts}

abbrev pub touches : List String → ValidateResult → Bool
touches paths r = any (λ p. elem p paths) r.files || any (λ p. elem p paths) r.dependencies

-- The settled sources whose results touch the changed pages.
unfoldable pub impact_candidates :
    (ℕ → String) → String → List String → List (ℕ × ValidateResult) → List (String × ℕ)
impact_candidates source_of changed paths [] = []
impact_candidates source_of changed paths ((i, r) ∷ results) =
    let rest = impact_candidates source_of changed paths results in
    if source_of i == changed || not (touches paths r) then rest else (source_of i, i) ∷ rest

abbrev pub change_line : PageChange → String
change_line c = S.◌++◌ c.path (S.◌++◌ ":" (S.◌++◌ c.before_sha256 (S.◌++◌ ":" c.after_sha256)))

unfoldable pub build_impact_job :
    Env → String → ValidateResult → List (ℕ × ValidateResult) → ImpactJob
unfolding impact_candidates sort_texts
build_impact_job env changed r results =
    let candidates =
      impact_candidates env.source_of changed (map (λ (c : PageChange). c.path) r.page_changes)
        results in
    record {
      id = env.text_sha256 (
          "impact-policy-v2"
          ∷ changed
          ∷ (map change_line r.page_changes
              ++ sort_texts (map (λ (c : String × ℕ). c.0) candidates)));
      changed_source = changed;
      candidates = candidates;
      transient_attempts = 0;
    }
