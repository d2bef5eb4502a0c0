-- ===== src/Tape/Answered.antt =====
-- The calls that a message makes and the results that answer them, told without the repair.
use knowlega.Base.{
  String, ◌≡◌, ◌⊎◌, refl, sym, ap, ◌∙◌, inl, inr, true, false, some, List, [], ◌∷◌, ◌++◌, map,
  arith, ◌==◌, eq_iff, elem, keep_if, Bool-cases, Option-cases,
}
use knowlega.Tape.Message.{
  ToolCall, Block, Message, is_call_block, tape_tool_calls, is_result, answered_ids, is_missing,
  named, is_assistant, missing_calls,
}

abbrev pub Has : {A : Type 0} → A → List A → Type 0
Has a [] = ⊥
Has a (x ∷ xs) = (a ≡ x) ⊎ Has a xs

pub Has-append : {A : Type 0} (a : A) (xs ys : List A) → Has a xs ⊎ Has a ys → Has a (xs ++ ys)
Has-append a [] ys (inl m) = absurd m
Has-append a [] ys (inr m) = m
Has-append a (x ∷ xs) ys (inl (inl e)) = inl e
Has-append a (x ∷ xs) ys (inl (inr m)) = inr (Has-append a xs ys (inl m))
Has-append a (x ∷ xs) ys (inr m) = inr (Has-append a xs ys (inr m))

-- A call that the message makes: an object of type toolCall in its content, or one of its toolCalls.
abbrev pub Calls : Message → ToolCall → Type 0
Calls m c = ((b : Block) × Has b m.blocks × (b.kind ≡ "toolCall") × (b.call ≡ c)) ⊎ Has c m.calls

-- A result for the id.
abbrev pub HasResult : String → List Message → Type 0
HasResult id ms =
    (r : Message) × Has r ms
    × (r.role ≡ "toolResult")
    × (r.decoded ≡ true)
    × (r.tool_call_id ≡ some id)

block-Has :
    (b : Block) (c : ToolCall) (blocks : List Block)
    → Has b blocks
    → b.kind ≡ "toolCall"
    → b.call ≡ c
    → Has c (map (λ (x : Block). x.call) (keep_if is_call_block blocks))
block-Has b c [] m k e = absurd m
block-Has b c (x ∷ blocks) (inl same) k e =
    let keeps : is_call_block x ≡ true =
      (eq_iff x.kind "toolCall").1 (ap (λ (y : Block). y.kind) (sym same) ∙ k) in
    rw keeps (inl (sym e ∙ ap (λ (y : Block). y.call) same))
block-Has b c (x ∷ blocks) (inr m) k e = elim (Bool-cases (is_call_block x)) [
  | inl f ↦ rw f (inr (block-Has b c blocks m k e))
  | inr f ↦ rw f (block-Has b c blocks m k e)
]

pub Calls-Has : (m : Message) (c : ToolCall) → Calls m c → Has c (tape_tool_calls m)
unfolding tape_tool_calls
Calls-Has m c (inl (b, there, k, e)) =
    Has-append c (map (λ (x : Block). x.call) (keep_if is_call_block m.blocks)) m.calls
      (inl (block-Has b c m.blocks there k e))
Calls-Has m c (inr there) =
    Has-append c (map (λ (x : Block). x.call) (keep_if is_call_block m.blocks)) m.calls (inr there)

append-nil : {A : Type 0} (xs ys : List A) → xs ++ ys ≡ [] → (xs ≡ []) × (ys ≡ [])
append-nil [] ys h = (refl, h)
append-nil (x ∷ xs) ys h = cc

none_kept :
    (a : List String) (c : ToolCall) (cs : List ToolCall)
    → map named (keep_if (is_missing a) cs) ≡ []
    → Has c cs
    → is_missing a c ≡ false
none_kept a c [] h m = absurd m
none_kept a c (x ∷ cs) h m = elim (Bool-cases (is_missing a x)) [
  | inl e ↦ cc (rw e at h)
  | inr e ↦ elim m [ inl same ↦ rw same e | inr there ↦ none_kept a c cs (rw e at h) there ]
]

pub no_missing :
    (a : List String) (m : Message) (c : ToolCall) (ms : List Message)
    → missing_calls a ms ≡ []
    → Has m ms
    → is_assistant m ≡ true
    → Has c (tape_tool_calls m)
    → is_missing a c ≡ false
unfolding missing_calls
no_missing a m c [] h there is there' = absurd there
no_missing a m c (x ∷ ms) h (inl same) is there' =
    let (here, later) =
      append-nil (map named (keep_if (is_missing a) (tape_tool_calls m))) (missing_calls a ms)
        (rw (← same, is) at h) in
    none_kept a c (tape_tool_calls m) here there'
no_missing a m c (x ∷ ms) h (inr there) is there' = elim (Bool-cases (is_assistant x)) [
  | inl e ↦
      let (here, later) =
        append-nil (map named (keep_if (is_missing a) (tape_tool_calls x))) (missing_calls a ms)
          (rw e at h) in
      no_missing a m c ms later there is there'
  | inr e ↦ no_missing a m c ms (rw e at h) there is there'
]

later-HasResult :
    (id : String) (m : Message) (ms : List Message) → HasResult id ms → HasResult id (m ∷ ms)
later-HasResult id m ms (r, there, role, decoded, answers) = (r, inr there, role, decoded, answers)

pub answered-HasResult :
    (id : String) (ms : List Message) → elem id (answered_ids ms) ≡ true → HasResult id ms
unfolding answered_ids
answered-HasResult id [] h = cc
answered-HasResult id (m ∷ ms) h = elim (Option-cases m.tool_call_id) [
  | inl e ↦ later-HasResult id m ms (answered-HasResult id ms (rw (e, answered_ids) at h))
  | inr (i, e) ↦ elim (Bool-cases (is_result m)) [
    | inr f ↦ later-HasResult id m ms (answered-HasResult id ms (rw (e, answered_ids, f) at h))
    | inl f ↦ elim (Bool-cases (id == i)) [
      | inr g ↦
          let rest : elem id (answered_ids ms) ≡ true = rw g at (rw (e, answered_ids, f) at h) in
          later-HasResult id m ms (answered-HasResult id ms rest)
      | inl g ↦ (
        m,
        inl refl,
        (eq_iff m.role "toolResult").0 (ground (arith, f)),
        ground (arith, f),
        e ∙ ap some (sym ((eq_iff id i).0 g)),
      )
    ]
  ]
]
