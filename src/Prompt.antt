-- ===== src/Prompt.antt =====
-- internal/agent/knowlega/promptbudget/promptbudget.go over texts as their runes.
pub mod Bounds
mod Tests
use Prim.Native.Char.{code}
use Prim.Native.String.{String}
use knowlega.Base.{
  ℕ, ◌+◌, ◌-◌, ◌/◌, Bool, List, [], ◌∷◌, ◌++◌, ltb, leb, ◌=ℕ◌, if◌then◌else◌, length, take, drop,
}

abbrev pub Runes : Type 0
Runes = List ℕ

abbrev pub runes : String → Runes
runes String.[] = []
runes (String.◌∷◌ c s) = code c ∷ runes s

unfoldable pub truncation_marker : Runes
truncation_marker =
    10
    ∷ 10
    ∷ (runes "[...prompt context truncated to stay within the configured LLM input budget...]"
        ++ (10 ∷ 10 ∷ []))

-- A bound that is not positive is 0 here.
unfoldable pub trim_middle : Runes → ℕ → Runes
trim_middle text max_runes =
    if max_runes =ℕ 0
    then []
    else if leb (length text) max_runes
    then text
    else if leb max_runes (length truncation_marker)
    then take max_runes text
    else let remaining = max_runes - length truncation_marker in
      let head = remaining / 2 in
      let tail = remaining - head in
      take head text ++ (truncation_marker ++ drop (length text - tail) text)

abbrev pub ellipsis : Runes
ellipsis = 46 ∷ 46 ∷ 46 ∷ []

unfoldable pub trim_end : Runes → ℕ → Runes
trim_end text max_runes =
    if max_runes =ℕ 0
    then []
    else if leb (length text) max_runes
    then text
    else if leb max_runes 3
    then take max_runes text
    else take (max_runes - 3) text ++ ellipsis

abbrev pub separator_reserve : ℕ
separator_reserve = 64

abbrev pub system_budget : ℕ → ℕ
system_budget max_input = let third = max_input / 3 in if ltb third 512 then 512 else third

-- `userBudget < 0` is a sum that passes the bound; a negative budget ends as 0, as `-` does.
unfoldable pub budget_chat_input : Runes → Runes → ℕ → Runes × Runes
budget_chat_input system user max_input =
    if max_input =ℕ 0
    then (system, user)
    else if leb (length system + length user + separator_reserve) max_input
    then (system, user)
    else let system' =
        if ltb max_input (length system + separator_reserve)
        then trim_end system (system_budget max_input)
        else system in
      (system', trim_middle user (max_input - length system' - separator_reserve))
