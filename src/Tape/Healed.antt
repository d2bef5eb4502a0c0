-- ===== src/Tape/Healed.antt =====
-- After the repair every call of the assistant has a result.
use mathlib.Core.List.{append_assoc}
use knowlega.Base.{
  ℕ, String, ◌≡◌, ◌≢◌, refl, sym, ap, ◌∙◌, subst, inl, inr, Bool, true, false, ◌||◌, List, [], ◌∷◌,
  ◌++◌, map, arith, ◌==◌, eq_refl, eq_iff, any, elem, keep_if, All, Bool-cases, Option-cases,
}
use knowlega.Tape.Answered.{
  Has, Has-append, Calls, Calls-Has, HasResult, no_missing, answered-HasResult,
}
use knowlega.Tape.Message.{
  ToolCall, Message, tape_tool_calls, is_result, answered_ids, is_missing, named, is_assistant,
  missing_calls, healed, heal_dangling_calls,
}

any-append : (p : String → Bool) (xs ys : List String) → any p (xs ++ ys) ≡ (any p xs || any p ys)
any-append p [] ys = refl
any-append p (x ∷ xs) ys = ground (arith, any-append p xs ys)

nil_append : {A : Type 0} (xs : List A) → xs ++ [] ≡ xs
nil_append [] = refl
nil_append (x ∷ xs) = ap (λ l. x ∷ l) (nil_append xs)

answered_ids-append :
    (xs ys : List Message) → answered_ids (xs ++ ys) ≡ answered_ids xs ++ answered_ids ys
unfolding answered_ids
answered_ids-append [] ys = refl
answered_ids-append (m ∷ xs) ys = elim (Option-cases m.tool_call_id) [
  | inl e ↦ rw (e, answered_ids) (answered_ids-append xs ys)
  | inr (id, e) ↦ elim (Bool-cases (is_result m)) [
    | inl r ↦ rw (e, answered_ids, r) (ap (λ l. id ∷ l) (answered_ids-append xs ys))
    | inr r ↦ rw (e, answered_ids, r) (answered_ids-append xs ys)
  ]
]

answered_ids-healed :
    (at : ℕ) (cs : List ToolCall)
    → answered_ids (map (healed at) cs) ≡ map (λ (c : ToolCall). c.id) cs
unfolding answered_ids
answered_ids-healed at [] = refl
answered_ids-healed at (c ∷ cs) = ap (λ l. c.id ∷ l) (answered_ids-healed at cs)

missing_calls-append :
    (a : List String) (xs ys : List Message)
    → missing_calls a (xs ++ ys) ≡ missing_calls a xs ++ missing_calls a ys
unfolding missing_calls
missing_calls-append a [] ys = refl
missing_calls-append a (m ∷ xs) ys = elim (Bool-cases (is_assistant m)) [
  | inl e ↦ rw e (
      ap (λ l. map named (keep_if (is_missing a) (tape_tool_calls m)) ++ l)
        (missing_calls-append a xs ys)
      ∙ sym (
          append_assoc (map named (keep_if (is_missing a) (tape_tool_calls m))) (missing_calls a xs)
            (missing_calls a ys)))
  | inr e ↦ rw e (missing_calls-append a xs ys)
]

missing_calls-healed :
    (a : List String) (at : ℕ) (cs : List ToolCall) → missing_calls a (map (healed at) cs) ≡ []
unfolding missing_calls
missing_calls-healed a at [] = refl
missing_calls-healed a at (c ∷ cs) = missing_calls-healed a at cs

abbrev Covered : List String → List ToolCall → Type 0
Covered new = All (λ (c : ToolCall). elem c.id new ≡ true)

named-id : (c : ToolCall) → (named c).id ≡ c.id
named-id c = elim (Bool-cases (c.name == "")) [ inl e ↦ rw e refl | inr e ↦ rw e refl ]

keep_if-Covered :
    (old new : List String) (cs : List ToolCall)
    → ((id : String) → elem id old ≡ true → elem id new ≡ true)
    → Covered new (map named (keep_if (is_missing old) cs))
    → keep_if (is_missing new) cs ≡ []
keep_if-Covered old new [] grows h = refl
keep_if-Covered old new (c ∷ cs) grows h = elim (Bool-cases (is_missing old c)) [
  | inl e ↦
      let k : Covered new (map named (c ∷ keep_if (is_missing old) cs)) = (rw e at h) in
      let found : elem c.id new ≡ true = sym (ap (λ i. elem i new) (named-id c)) ∙ k.0 in
      let settled : is_missing new c ≡ false = ground (arith, found) in
      rw settled (keep_if-Covered old new cs grows k.1)
  | inr e ↦
      let k : Covered new (map named (keep_if (is_missing old) cs)) = (rw e at h) in
      let settled : is_missing new c ≡ false = ground (arith, e, grows c.id) in
      rw settled (keep_if-Covered old new cs grows k)
]

Covered-front :
    (new : List String) (xs ys : List ToolCall)
    → Covered new (xs ++ ys)
    → Covered new xs × Covered new ys
Covered-front new [] ys h = (tt, h)
Covered-front new (x ∷ xs) ys h = let (a, b) = Covered-front new xs ys h.1 in ((h.0, a), b)

missing_calls-Covered :
    (old new : List String) (ms : List Message)
    → ((id : String) → elem id old ≡ true → elem id new ≡ true)
    → Covered new (missing_calls old ms)
    → missing_calls new ms ≡ []
unfolding missing_calls
missing_calls-Covered old new [] grows h = refl
missing_calls-Covered old new (m ∷ ms) grows h = elim (Bool-cases (is_assistant m)) [
  | inr e ↦ rw e (missing_calls-Covered old new ms grows (rw e at h))
  | inl e ↦
      let (here, later) =
        Covered-front new (map named (keep_if (is_missing old) (tape_tool_calls m)))
          (missing_calls old ms) (rw e at h) in
      rw e (
        rw (keep_if-Covered old new (tape_tool_calls m) grows here)
          (missing_calls-Covered old new ms grows later))
]

elem-front : (id : String) (xs ys : List String) → elem id xs ≡ true → elem id (xs ++ ys) ≡ true
elem-front id xs ys h = ground (arith, h, any-append (λ t. id == t) xs ys)

Covered-self :
    (pre : List String) (cs : List ToolCall) → Covered (pre ++ map (λ (c : ToolCall). c.id) cs) cs
Covered-self pre [] = tt
Covered-self pre (c ∷ cs) = (
  ground (
    arith,
    eq_refl c.id,
    any-append (λ t. c.id == t) pre (c.id ∷ map (λ (d : ToolCall). d.id) cs),
  ),
  subst (λ l. Covered l cs) (append_assoc pre (c.id ∷ []) (map (λ (d : ToolCall). d.id) cs))
      (Covered-self (pre ++ c.id ∷ []) cs),
)

-- After a repair every call with an id that a message of the assistant makes, in its content or its
-- toolCalls, has a result, and a repair of the repaired messages, at any time, changes nothing.
pub heal_again :
    (at later : ℕ) (ms : List Message) (m : Message) (c : ToolCall)
    → Has m ms
    → m.role ≡ "assistant"
    → m.decoded ≡ true
    → Calls m c
    → c.id ≢ ""
    → HasResult c.id (heal_dangling_calls at ms)
      × (heal_dangling_calls later (heal_dangling_calls at ms) ≡ heal_dangling_calls at ms)
heal_again at later ms m c there role decoded makes named_id = (
  unfold heal_dangling_calls in answered,
  unfold heal_dangling_calls in rw none_left' (nil_append _),
)
  where
    calls : List ToolCall
    calls = missing_calls (answered_ids ms) ms

    repaired : List Message
    repaired = ms ++ map (healed at) calls

    ids : answered_ids repaired ≡ answered_ids ms ++ map (λ (c : ToolCall). c.id) calls
    ids =
        answered_ids-append ms (map (healed at) calls)
        ∙ ap (λ l. answered_ids ms ++ l) (answered_ids-healed at calls)

    none_left' : missing_calls (answered_ids repaired) repaired ≡ []
    none_left' =
        missing_calls-append (answered_ids repaired) ms (map (healed at) calls)
        ∙ ap (λ l. missing_calls (answered_ids repaired) ms ++ l)
            (missing_calls-healed (answered_ids repaired) at calls)
        ∙ nil_append (missing_calls (answered_ids repaired) ms)
        ∙ rw ids (
            missing_calls-Covered (answered_ids ms)
              (answered_ids ms ++ map (λ (c : ToolCall). c.id) calls) ms
              (λ id h. elem-front id (answered_ids ms) (map (λ (c : ToolCall). c.id) calls) h)
              (Covered-self (answered_ids ms) calls))

    answered : HasResult c.id repaired
    answered =
        let is : is_assistant m ≡ true = rw (role, decoded) refl in
        let settled =
          no_missing (answered_ids repaired) m c repaired none_left'
            (Has-append m ms (map (healed at) calls) (inl there)) is (Calls-Has m c makes) in
        answered-HasResult c.id repaired (ground (arith, settled, named_id, eq_iff c.id ""))
