-- ===== src/Tape/Tests.antt =====
-- Runs of the fold and the lint on small tapes.
use knowlega.Base.{◌≤◌, ◌≡◌, refl, true, false, some, none, List, [], ◌∷◌, length, inl, inr, eq_iff}
use mathlib.Core.Bool.{false≢true}
use knowlega.Tape.Answered.{HasResult}
use knowlega.Tape.Healed.{heal_again}
use knowlega.Tape.Message.{heal_dangling_calls, Message, healed}
use knowlega.Tape.Fold.{
  Row, turn_end, message, compaction, interrupt, Fold, fold_rows, fold_tape, cut_of, or_zero,
}
use knowlega.Tape.Lint.{needs_interrupt_heal}
use knowlega.Tape.Range.{InRange, fold_rows-InRange}

abbrev user : Message
user = record {
  role = "user";
  decoded = true;
  blocks = [];
  calls = [];
  tool_call_id = none;
  tool_name = "";
  text = "hello";
  is_error = false;
  timestamp = 1;
}

abbrev assistant : Message
assistant = record user { role = "assistant"; calls = record { id = "c1"; name = "read" } ∷ [] }

abbrev rows : List Row
rows =
    message user
    ∷ turn_end 3
    ∷ message assistant
    ∷ compaction "summary" (some 5) 9
    ∷ interrupt 10
    ∷ []

-- The summary, the call and its repair.
three_messages : length (fold_tape rows) ≡ 3
unfolding fold_tape
three_messages = refl

dangling : needs_interrupt_heal (user ∷ assistant ∷ []) ≡ true
unfolding needs_interrupt_heal
dangling = refl

repaired :
    needs_interrupt_heal (user ∷ assistant ∷ healed 10 (record { id = "c1"; name = "read" }) ∷ [])
    ≡ false
unfolding needs_interrupt_heal
repaired = refl

abbrev empty : Fold
empty = record { out = []; boundaries = [] }

fold_rows-InRange_example :
    InRange (length (fold_rows empty rows).out) (fold_rows empty rows).boundaries
    × (or_zero (cut_of (some 7) (fold_rows empty rows).boundaries)
        ≤ length (fold_rows empty rows).out)
fold_rows-InRange_example = fold_rows-InRange rows empty (some 7) tt

-- The call stands in the content.
abbrev calling : Message
calling = record assistant {
  blocks =
      record { kind = "toolCall"; has_data = false; call = record { id = "c2"; name = "" } } ∷ [];
}

heal_again_example :
    HasResult "c2" (heal_dangling_calls 10 (user ∷ calling ∷ []))
    × (heal_dangling_calls 11 (heal_dangling_calls 10 (user ∷ calling ∷ []))
        ≡ heal_dangling_calls 10 (user ∷ calling ∷ []))
heal_again_example =
    heal_again 10 11 (user ∷ calling ∷ []) calling (record { id = "c2"; name = "" })
      (inr (inl refl)) refl refl
      (inl (
        record { kind = "toolCall"; has_data = false; call = record { id = "c2"; name = "" } },
        inl refl,
        refl,
        refl,
      ))
      (λ h. false≢true ((eq_iff "c2" "").1 h))
