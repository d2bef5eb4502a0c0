-- ===== src/Prompt/Tests.antt =====
-- Prompts of some lengths.
use knowlega.Base.{ℕ, zero, suc, ◌+◌, ◌≤◌, ◌<◌, ◌≡◌, [], ◌∷◌, ◌++◌, arith, length}
use knowlega.Prompt.{Runes, runes, truncation_marker, trim_middle, budget_chat_input}
use knowlega.Prompt.Bounds.{trim_middle_keeps, budget_passed}

abbrev copies : ℕ → Runes
copies zero = []
copies (suc n) = 97 ∷ copies n

trim_middle_keeps_example :
    (head : Runes) × (middle : Runes) × (tail : Runes) × (copies 120 ≡ head ++ (middle ++ tail))
    × (trim_middle (copies 120) 100 ≡ head ++ (truncation_marker ++ tail))
    × (length head + length tail + length truncation_marker ≡ 100)
    × (length head ≤ length tail)
    × (length tail ≤ length head + 1)
trim_middle_keeps_example =
    trim_middle_keeps (copies 120) 100 (unfold truncation_marker in omega arith) (omega arith)

budget_passed_example : 300 < length (budget_chat_input (copies 600) (runes "user") 300).0
budget_passed_example =
    budget_passed (copies 600) (runes "user") 300 (omega arith) (omega arith) (omega arith)
