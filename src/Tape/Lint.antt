-- ===== src/Tape/Lint.antt =====
-- LintTapeFold and TapeNeedsInterruptHeal.
use knowlega.Base.{
  ℕ, suc, String, Bool, true, false, not, ◌&&◌, ◌||◌, Option, none, some, List, [], ◌∷◌, ◌++◌, ◌==◌,
  ltb, ◌=ℕ◌, if◌then◌else◌, length, elem, keep_if,
}
use knowlega.Tape.Message.{Message, ToolCall, Block, tape_tool_calls}

pub data Problem : Type 0 where
  first_role : String → Problem
  unknown_role : ℕ → String → Problem
  invalid_message : ℕ → Problem
  image_without_bytes : ℕ → Problem
  duplicate_call : ℕ → String → Problem
  result_without_call : ℕ → Problem
  user_while_open : ℕ → ℕ → Problem
  dangling_at_end : ℕ → Problem

-- The calls that wait for a result, each once, and all seen.
pub record Calls : Type 0 where
  pub open_calls : List String
  pub seen_calls : List String

abbrev pub add_once : String → List String → List String
add_once id ids = if elem id ids then ids else id ∷ ids

abbrev pub remove_id : String → List String → List String
remove_id id ids = keep_if (λ j. not (j == id)) ids

abbrev pub image_problems : ℕ → List Block → List Problem
image_problems n [] = []
image_problems n (b ∷ blocks) =
    if b.kind == "image" && not b.has_data
    then image_without_bytes n ∷ image_problems n blocks
    else image_problems n blocks

-- The calls of one message of the assistant.
unfoldable pub lint_calls : ℕ → List ToolCall → Calls → List Problem × Calls
lint_calls n [] s = ([], s)
lint_calls n (c ∷ calls) s =
    let rest = lint_calls n calls (record {
      open_calls = add_once c.id s.open_calls;
      seen_calls = add_once c.id s.seen_calls;
    }) in
    let without = lint_calls n calls s in
    if c.id == ""
    then without
    else ((if elem c.id s.seen_calls then duplicate_call n c.id ∷ rest.0 else rest.0), rest.1)

abbrev pub id_of : Option String → String
id_of none = ""
id_of (some id) = id

abbrev pub lint_result : ℕ → String → Calls → List Problem × Calls
lint_result n id s =
    if id == "" || not (elem id s.open_calls)
    then (result_without_call n ∷ [], s)
    else ([], record s { open_calls = remove_id id s.open_calls })

abbrev pub lint_user : ℕ → Calls → List Problem × Calls
lint_user n s =
    if ltb 0 (length s.open_calls)
    then (user_while_open n (length s.open_calls) ∷ [], record s { open_calls = [] })
    else ([], s)

unfoldable pub lint_message : ℕ → Message → Calls → List Problem × Calls
unfolding lint_calls tape_tool_calls
lint_message n m s =
    let known = m.role == "user" || m.role == "assistant" || m.role == "toolResult" in
    let images = image_problems n m.blocks in
    let (problems, s') =
      if m.role == "assistant"
      then lint_calls n (tape_tool_calls m) s
      else (if m.role == "toolResult"
          then lint_result n (id_of m.tool_call_id) s
          else lint_user n s) in
    if not known
    then (unknown_role n m.role ∷ [], s)
    else (if not m.decoded then (invalid_message n ∷ [], s) else (images ++ problems, s'))

unfoldable pub lint_messages : ℕ → List Message → Calls → List Problem × Calls
unfolding lint_message
lint_messages n [] s = ([], s)
lint_messages n (m ∷ messages) s =
    let (problems, s') = lint_message n m s in
    let (others, s'') = lint_messages (suc n) messages s' in (problems ++ others, s'')

abbrev pub first_problem : List Message → List Problem
first_problem [] = []
first_problem (m ∷ messages) = if m.role == "user" then [] else first_role m.role ∷ []

abbrev pub end_problem : Calls → List Problem
end_problem s =
    if ltb 0 (length s.open_calls) then dangling_at_end (length s.open_calls) ∷ [] else []

-- The problems in order; the fold is in order when there is none.
unfoldable pub lint_tape_fold : List Message → List Problem
unfolding lint_messages
lint_tape_fold messages =
    let (problems, s) = lint_messages 0 messages (record { open_calls = []; seen_calls = [] }) in
    first_problem messages ++ (problems ++ end_problem s)

abbrev pub is_end : Problem → Bool
is_end (dangling_at_end n) = true
is_end _ = false

abbrev pub all_end : List Problem → Bool
all_end [] = true
all_end (p ∷ problems) = is_end p && all_end problems

unfoldable pub needs_interrupt_heal : List Message → Bool
unfolding lint_tape_fold
needs_interrupt_heal messages =
    let problems = lint_tape_fold messages in not (length problems =ℕ 0) && all_end problems
