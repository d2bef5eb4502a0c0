-- ===== src/Tape/Fold.antt =====
-- FoldTape.
use Prim.Native.String as S
use knowlega.Base.{
  ℕ, ◌+◌, ◌-◌, String, Bool, true, false, ◌||◌, Option, none, some, List, [], ◌∷◌, ◌++◌, leb,
  if◌then◌else◌, length, drop,
}
use knowlega.Tape.Message.{Message, heal_dangling_calls}

-- A row by its kind, as the code decodes it. A message whose payload is empty or null, an annotation
-- that ends no turn or has no sequence, and an unknown kind or event are `other`.
pub data Row : Type 0 where
  turn_end : ℕ → Row
  legacy_import : List Message → Option ℕ → Row
  legacy_patch : List Message → Option ℕ → Row
  compaction : String → Option ℕ → ℕ → Row
  interrupt : ℕ → Row
  message : Message → Row
  other : Row

pub record Boundary : Type 0 where
  pub position : ℕ
  pub entry_sequence : ℕ

-- The messages so far, and the boundaries from the last to the first.
pub record Fold : Type 0 where
  pub out : List Message
  pub boundaries : List Boundary

abbrev pub add_boundary : Option ℕ → ℕ → List Boundary → List Boundary
add_boundary none position boundaries = boundaries
add_boundary (some n) position boundaries =
    record { position = position; entry_sequence = n } ∷ boundaries

-- The last boundary that the summary covers.
unfoldable pub find_cut : ℕ → List Boundary → Option ℕ
find_cut covers [] = none
find_cut covers (b ∷ boundaries) =
    if leb b.entry_sequence covers then some b.position else find_cut covers boundaries

unfoldable pub cut_of : Option ℕ → List Boundary → Option ℕ
unfolding find_cut
cut_of none boundaries = none
cut_of (some covers) boundaries = find_cut covers boundaries

abbrev pub summary : String → ℕ → Message
summary text created_at = record {
  role = "user";
  decoded = true;
  blocks = record { kind = "text"; has_data = false; call = record { id = ""; name = "" } } ∷ [];
  calls = [];
  tool_call_id = none;
  tool_name = "";
  text = S.◌++◌ "[Earlier conversation summary]\n" text;
  is_error = false;
  timestamp = created_at;
}

-- The boundaries that stay, in the positions behind the summary.
unfoldable pub shift : Bool → ℕ → List Boundary → List Boundary
shift no_cut position [] = []
shift no_cut position (b ∷ boundaries) =
    let rest = shift no_cut position boundaries in
    if no_cut || leb position b.position
    then record b { position = (b.position - position) + 1 } ∷ rest
    else rest

abbrev pub or_zero : Option ℕ → ℕ
or_zero none = 0
or_zero (some n) = n

abbrev pub lacks : Option ℕ → Bool
lacks none = true
lacks (some n) = false

-- The messages behind the cut, and the summary of the others before them.
unfoldable pub compact : String → Option ℕ → ℕ → Fold → Fold
unfolding cut_of shift
compact text covers created_at f =
    let cut = cut_of covers f.boundaries in
    record {
      out = summary text created_at ∷ drop (or_zero cut) f.out;
      boundaries = shift (lacks cut) (or_zero cut) f.boundaries;
    }

unfoldable pub fold_row : Fold → Row → Fold
unfolding compact heal_dangling_calls
fold_row f (turn_end n) = record f {
  boundaries = add_boundary (some n) (length f.out) f.boundaries;
}
fold_row f (legacy_import messages covers) = record {
  out = messages;
  boundaries = add_boundary covers (length messages) [];
}
fold_row f (legacy_patch messages covers) = record {
  out = f.out ++ messages;
  boundaries = add_boundary covers (length (f.out ++ messages)) f.boundaries;
}
fold_row f (compaction text covers created_at) = compact text covers created_at f
fold_row f (interrupt at) = record f { out = heal_dangling_calls at f.out }
fold_row f (message m) = record f { out = f.out ++ m ∷ [] }
fold_row f other = f

unfoldable pub fold_rows : Fold → List Row → Fold
unfolding fold_row
fold_rows f [] = f
fold_rows f (r ∷ rows) = fold_rows (fold_row f r) rows

unfoldable pub fold_tape : List Row → List Message
unfolding fold_rows
fold_tape rows = (fold_rows (record { out = []; boundaries = [] }) rows).out
