-- ===== src/Prompt/Bounds.antt =====
-- The lengths of trimmed prompts, and what they keep of the text.
use Prim.Native.Nat.{min}
use knowlega.Base.{
  ℕ, ◌+◌, ◌-◌, ◌/◌, ◌≤◌, ◌<◌, ◌≡◌, refl, inl, inr, ◌++◌, arith, leb, ◌=ℕ◌, length, length-append,
  length-take, length-drop, take, drop, three_parts, Bool-cases,
}
use knowlega.Prompt.{
  Runes, truncation_marker, trim_middle, trim_end, ellipsis, system_budget, separator_reserve,
  budget_chat_input,
}

marker_length : length truncation_marker ≡ 83
unfolding truncation_marker
marker_length = refl

length-spliced :
    (text : Runes) (max_runes r : ℕ)
    → r + length truncation_marker ≡ max_runes
    → max_runes < length text
    → length (take (r / 2) text ++ (truncation_marker ++ drop (length text - (r - r / 2)) text))
      ≡ min (length text) max_runes
length-spliced text max_runes r e h = omega (
  arith,
  length-append (take (r / 2) text) (truncation_marker ++ drop (length text - (r - r / 2)) text),
  length-append truncation_marker (drop (length text - (r - r / 2)) text),
  length-take (r / 2) text,
  length-drop (length text - (r - r / 2)) text,
)

length-trim_middle :
    (text : Runes) (max_runes : ℕ)
    → length (trim_middle text max_runes) ≡ min (length text) max_runes
unfolding trim_middle
length-trim_middle text max_runes = elim (Bool-cases (max_runes =ℕ 0)) [
  | inl z ↦ rw z (ground arith)
  | inr nz ↦ rw nz (elim (Bool-cases (leb (length text) max_runes)) [
    | inl fits ↦ rw fits (ground arith)
    | inr long ↦ rw long (elim (Bool-cases (leb max_runes (length truncation_marker))) [
      | inl short ↦ rw short (ground (arith, length-take max_runes text))
      | inr room ↦ rw room (
          length-spliced text max_runes (max_runes - length truncation_marker) (ground arith)
            (ground arith))
    ])
  ])
]

length-trim_end :
    (text : Runes) (max_runes : ℕ) → length (trim_end text max_runes) ≡ min (length text) max_runes
unfolding trim_end
length-trim_end text max_runes = ground (
  arith,
  length-take max_runes text,
  length-take (max_runes - 3) text,
  length-append (take (max_runes - 3) text) ellipsis,
)

-- A text trimmed in the middle, or at its end, has its own length or the bound, whichever is less.
pub length-trim :
    (text : Runes) (max_runes : ℕ)
    → (length (trim_middle text max_runes) ≡ min (length text) max_runes)
      × (length (trim_end text max_runes) ≡ min (length text) max_runes)
length-trim text max_runes = (length-trim_middle text max_runes, length-trim_end text max_runes)

-- A text that is longer than the bound keeps a head and a tail round the marker, where the marker
-- fits; the two have the rest of the bound between them, and the tail is at most one rune longer.
pub trim_middle_keeps :
    (text : Runes) (max_runes : ℕ)
    → length truncation_marker < max_runes
    → max_runes < length text
    → (head : Runes) × (middle : Runes) × (tail : Runes) × (text ≡ head ++ (middle ++ tail))
      × (trim_middle text max_runes ≡ head ++ (truncation_marker ++ tail))
      × (length head + length tail + length truncation_marker ≡ max_runes)
      × (length head ≤ length tail)
      × (length tail ≤ length head + 1)
unfolding trim_middle
trim_middle_keeps text max_runes room long =
    let r = max_runes - length truncation_marker in
    let n = length text - (r - r / 2) in
    (
      take (r / 2) text,
      take (n - r / 2) (drop (r / 2) text),
      drop n text,
      three_parts (r / 2) n text (omega arith),
      ground arith,
      omega (arith, length-take (r / 2) text, length-drop n text),
      omega (arith, length-take (r / 2) text, length-drop n text),
      omega (arith, length-take (r / 2) text, length-drop n text),
    )

-- Where the budget leaves room for the reserve and 512 runes of the system prompt, system, user and
-- reserve together stay within it.
pub budget_within :
    (system user : Runes) (max_input : ℕ)
    → 576 ≤ max_input
    → length (budget_chat_input system user max_input).0
        + length (budget_chat_input system user max_input).1
        + separator_reserve
      ≤ max_input
unfolding budget_chat_input
budget_within system user max_input h = ground (
  arith,
  length-trim_end system (system_budget max_input),
  length-trim_middle user (max_input - length system - separator_reserve),
  length-trim_middle user
      (max_input - length (trim_end system (system_budget max_input)) - separator_reserve),
)

-- A budget of less than 512 runes does not bound the system prompt: one that is longer than 512 runes
-- is cut to 512, which alone passes the budget.
pub budget_passed :
    (system user : Runes) (max_input : ℕ)
    → 0 < max_input
    → max_input < 512
    → 512 ≤ length system
    → max_input < length (budget_chat_input system user max_input).0
unfolding budget_chat_input
budget_passed system user max_input pos small long =
    ground (arith, length-trim_end system (system_budget max_input))
