-- ===== src/Tape/Message.antt =====
-- The messages of the tape as encoding/json reads them, and healDanglingTapeCalls.
use knowlega.Base.{
  ℕ, String, Bool, true, false, not, ◌&&◌, Option, none, some, List, [], ◌∷◌, ◌++◌, map, ◌==◌,
  if◌then◌else◌, elem, keep_if,
}

-- A tool call; the id or name is "" where the document has no such text.
pub record ToolCall : Type 0 where
  pub id : String
  pub name : String

-- An object in the list `content`: its `type`, whether `data` is a text, and `id` and `name`.
pub record Block : Type 0 where
  pub kind : String
  pub has_data : Bool
  pub call : ToolCall

-- `role` is tapeMessageRole, `decoded` whether the message is a JSON object.
pub record Message : Type 0 where
  pub role : String
  pub decoded : Bool
  pub blocks : List Block
  pub calls : List ToolCall
  pub tool_call_id : Option String
  pub tool_name : String
  pub text : String
  pub is_error : Bool
  pub timestamp : ℕ

abbrev pub is_call_block : Block → Bool
is_call_block b = b.kind == "toolCall"

unfoldable pub tape_tool_calls : Message → List ToolCall
tape_tool_calls m = map (λ (b : Block). b.call) (keep_if is_call_block m.blocks) ++ m.calls

abbrev pub is_result : Message → Bool
is_result m = m.role == "toolResult" && m.decoded

-- The ids of the results.
unfoldable pub answered_ids : List Message → List String
answered_ids [] = []
answered_ids (m ∷ messages) =
    let rest = answered_ids messages in
    elim m.tool_call_id [ none ↦ rest | some id ↦ if is_result m then id ∷ rest else rest ]

abbrev pub is_missing : List String → ToolCall → Bool
is_missing answered c = not (c.id == "") && not (elem c.id answered)

abbrev pub named : ToolCall → ToolCall
named c = if c.name == "" then record c { name = "tool" } else c

abbrev pub is_assistant : Message → Bool
is_assistant m = m.role == "assistant" && m.decoded

-- The calls of the assistant without a result, in order.
unfoldable pub missing_calls : List String → List Message → List ToolCall
unfolding tape_tool_calls
missing_calls answered [] = []
missing_calls answered (m ∷ messages) =
    let rest = missing_calls answered messages in
    if is_assistant m
    then map named (keep_if (is_missing answered) (tape_tool_calls m)) ++ rest
    else rest

abbrev pub interrupted_tool_result : String
interrupted_tool_result = "[interrupted before this tool call completed]"

abbrev pub healed : ℕ → ToolCall → Message
healed at c = record {
  role = "toolResult";
  decoded = true;
  blocks = record { kind = "text"; has_data = false; call = record { id = ""; name = "" } } ∷ [];
  calls = [];
  tool_call_id = some c.id;
  tool_name = c.name;
  text = interrupted_tool_result;
  is_error = true;
  timestamp = at;
}

unfoldable pub heal_dangling_calls : ℕ → List Message → List Message
unfolding answered_ids missing_calls
heal_dangling_calls at messages =
    messages ++ map (healed at) (missing_calls (answered_ids messages) messages)
