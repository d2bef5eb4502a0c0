-- ===== src/Scheduler/Texts.antt =====
-- sortedUniqueStrings (generation_policy.go) and the test for transient errors (scheduler.go).
use Prim.Native.Nat.{Ordering}
use Prim.Native.String.{compare}
use text.Mathlib.Text.{starts_with}
use knowlega.Base.Text.{trim_space}
use knowlega.Base.{String, Bool, ◌||◌, List, [], ◌∷◌, ◌==◌, if◌then◌else◌, any, elem}

abbrev pub insert_text : String → List String → List String
insert_text s [] = s ∷ []
insert_text s (t ∷ ts) = elim (compare s t) [ Ordering.gt ↦ t ∷ insert_text s ts | _ ↦ s ∷ t ∷ ts ]

-- sort.Strings.
unfoldable pub sort_texts : List String → List String
sort_texts [] = []
sort_texts (s ∷ ss) = insert_text s (sort_texts ss)

-- The trimmed texts that are not empty, each the first time; `seen` are those before.
unfoldable pub unique_texts : List String → List String → List String
unique_texts seen [] = []
unique_texts seen (s ∷ ss) =
    let v = trim_space s in
    if v == "" || elem v seen then unique_texts seen ss else v ∷ unique_texts (v ∷ seen) ss

unfoldable pub sorted_unique : List String → List String
unfolding sort_texts unique_texts
sorted_unique ss = sort_texts (unique_texts [] ss)

-- strings.Contains.
abbrev pub contains : String → String → Bool
contains String.[] part = starts_with String.[] part
contains (String.◌∷◌ c s) part = starts_with (String.◌∷◌ c s) part || contains s part

abbrev pub transient_fragments : List String
transient_fragments =
    "context deadline exceeded" ∷ "client.timeout exceeded" ∷ "i/o timeout"
    ∷ "connection reset by peer" ∷ "unexpected eof"
    ∷ "model is not supported when using codex with a chatgpt account" ∷ []

unfoldable pub is_persisted_transient : (String → String) → String → Bool
is_persisted_transient to_lower reason =
    let text = to_lower (trim_space reason) in any (λ part. contains text part) transient_fragments

-- Whether an error is transient: errors.Is says that a deadline has passed, or its text says it.
unfoldable pub is_transient : (String → String) → Bool → String → Bool
unfolding is_persisted_transient
is_transient to_lower deadline reason = deadline || is_persisted_transient to_lower reason
