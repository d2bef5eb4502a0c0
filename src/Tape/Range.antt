-- ===== src/Tape/Range.antt =====
-- FoldTape cuts its messages only at positions that they have.
use knowlega.Base.{
  ℕ, suc, ◌-◌, ◌≤◌, String, inl, inr, Bool, ◌||◌, Option, none, some, List, [], ◌∷◌, ◌++◌, arith,
  leb, length, length-append, length-drop, Bool-cases,
}
use knowlega.Tape.Message.{Message, heal_dangling_calls}
use knowlega.Tape.Fold.{
  Row, turn_end, legacy_import, legacy_patch, compaction, interrupt, message, other, Boundary, Fold,
  add_boundary, find_cut, cut_of, shift, or_zero, lacks, compact, fold_row, fold_rows,
}

-- Each boundary is a position of the messages.
abbrev pub InRange : ℕ → List Boundary → Type 0
InRange n [] = Unit
InRange n (b ∷ boundaries) = (b.position ≤ n) × InRange n boundaries

InRange-more : (n m : ℕ) (bs : List Boundary) → n ≤ m → InRange n bs → InRange m bs
InRange-more n m [] le h = tt
InRange-more n m (b ∷ bs) le h = (omega (arith, h.0, le), InRange-more n m bs le h.1)

add_boundary-InRange :
    (c : Option ℕ) (n : ℕ) (bs : List Boundary) → InRange n bs → InRange n (add_boundary c n bs)
add_boundary-InRange none n bs h = h
add_boundary-InRange (some k) n bs h = (omega arith, h)

find_cut-le : (covers n : ℕ) (bs : List Boundary) → InRange n bs → or_zero (find_cut covers bs) ≤ n
unfolding find_cut
find_cut-le covers n [] h = omega arith
find_cut-le covers n (b ∷ bs) h = elim (Bool-cases (leb b.entry_sequence covers)) [
  | inl e ↦ rw e h.0
  | inr e ↦ rw e (find_cut-le covers n bs h.1)
]

-- The position at which a compaction cuts is one of the messages'.
pub cut_of-le :
    (covers : Option ℕ) (n : ℕ) (bs : List Boundary) → InRange n bs → or_zero (cut_of covers bs) ≤ n
unfolding cut_of
cut_of-le none n bs h = omega arith
cut_of-le (some covers) n bs h = find_cut-le covers n bs h

shift-InRange :
    (no_cut : Bool) (p n : ℕ) (bs : List Boundary)
    → p ≤ n
    → InRange n bs
    → InRange (suc (n - p)) (shift no_cut p bs)
unfolding shift
shift-InRange no_cut p n [] le h = tt
shift-InRange no_cut p n (b ∷ bs) le h = elim (Bool-cases (no_cut || leb p b.position)) [
  | inl e ↦ rw e (omega (arith, h.0), shift-InRange no_cut p n bs le h.1)
  | inr e ↦ rw e (shift-InRange no_cut p n bs le h.1)
]

compact-InRange :
    (text : String) (covers : Option ℕ) (at : ℕ) (f : Fold)
    → InRange (length f.out) f.boundaries
    → InRange (length (compact text covers at f).out) (compact text covers at f).boundaries
unfolding compact
compact-InRange text covers at f h =
    let p = or_zero (cut_of covers f.boundaries) in
    let le = cut_of-le covers (length f.out) f.boundaries h in
    rw (length-drop p f.out)
      (shift-InRange (lacks (cut_of covers f.boundaries)) p (length f.out) f.boundaries le h)

append-InRange :
    (ms more : List Message) (bs : List Boundary)
    → InRange (length ms) bs
    → InRange (length (ms ++ more)) bs
append-InRange ms more bs h =
    InRange-more (length ms) (length (ms ++ more)) bs (omega (arith, length-append ms more)) h

fold_row-InRange :
    (f : Fold) (r : Row)
    → InRange (length f.out) f.boundaries
    → InRange (length (fold_row f r).out) (fold_row f r).boundaries
unfolding fold_row heal_dangling_calls
fold_row-InRange f (turn_end n) h = (omega arith, h)
fold_row-InRange f (legacy_import ms covers) h = add_boundary-InRange covers (length ms) [] tt
fold_row-InRange f (legacy_patch ms covers) h =
    add_boundary-InRange covers (length (f.out ++ ms)) f.boundaries
      (append-InRange f.out ms f.boundaries h)
fold_row-InRange f (compaction text covers at) h = compact-InRange text covers at f h
fold_row-InRange f (interrupt at) h = append-InRange f.out _ f.boundaries h
fold_row-InRange f (message m) h = append-InRange f.out (m ∷ []) f.boundaries h
fold_row-InRange f other h = h

-- After any rows, from a fold whose boundaries are positions of its messages, the boundaries are
-- positions of its messages, and the place where a next compaction cuts is one of them or 0: FoldTape
-- slices its messages at no index behind their end.
pub fold_rows-InRange :
    (rows : List Row) (f : Fold) (covers : Option ℕ)
    → InRange (length f.out) f.boundaries
    → InRange (length (fold_rows f rows).out) (fold_rows f rows).boundaries
      × (or_zero (cut_of covers (fold_rows f rows).boundaries) ≤ length (fold_rows f rows).out)
unfolding fold_rows
fold_rows-InRange [] f covers h = (h, cut_of-le covers (length f.out) f.boundaries h)
fold_rows-InRange (r ∷ rows) f covers h =
    fold_rows-InRange rows (fold_row f r) covers (fold_row-InRange f r h)
