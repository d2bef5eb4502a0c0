-- ===== src/Base/Text.antt =====
-- strings.TrimSpace and the few other functions on text that the program calls, by characters.

use Prim.Native.Char.{Char, code}
use Prim.Native.String.{String}
use mathlib.Core.Path.{◌≡◌, refl, ap}
use mathlib.Core.Logic.{inl, inr}
use mathlib.Core.Bool.{Bool, false, ◌&&◌, ◌||◌}
use knowlega.Base.Tests.{leb, ◌=ℕ◌, if◌then◌else◌, Bool-cases}

-- unicode.IsSpace.
pub is_space : Char → Bool
is_space c =
    let n = code c in
    (leb 9 n && leb n 13)
    || n =ℕ 32
    || n =ℕ 133
    || n =ℕ 160
    || n =ℕ 5760
    || (leb 8192 n && leb n 8202)
    || n =ℕ 8232
    || n =ℕ 8233
    || n =ℕ 8239
    || n =ℕ 8287
    || n =ℕ 12288

pub trim_left : String → String
trim_left String.[] = String.[]
trim_left (String.◌∷◌ c s) = if is_space c then trim_left s else String.◌∷◌ c s

-- A character is kept unless it and all after it are spaces.
keep_char : Char → String → String
keep_char c String.[] = if is_space c then String.[] else String.◌∷◌ c String.[]
keep_char c (String.◌∷◌ d s) = String.◌∷◌ c (String.◌∷◌ d s)

pub trim_right : String → String
unfolding keep_char
trim_right String.[] = String.[]
trim_right (String.◌∷◌ c s) = keep_char c (trim_right s)

unfoldable pub trim_space : String → String
unfolding trim_left trim_right is_space
trim_space s = trim_right (trim_left s)

-- No leading space.
StartsTight : String → Type 0
StartsTight String.[] = Unit
StartsTight (String.◌∷◌ c s) = is_space c ≡ false

trim_left-tight : (s : String) → StartsTight (trim_left s)
unfolding trim_left StartsTight
trim_left-tight String.[] = tt
trim_left-tight (String.◌∷◌ c s) = elim (Bool-cases (is_space c)) [
  | inl e ↦ rw e (trim_left-tight s)
  | inr e ↦ rw e e
]

trim_left_of_tight : (s : String) → StartsTight s → trim_left s ≡ s
unfolding trim_left StartsTight
trim_left_of_tight String.[] h = refl
trim_left_of_tight (String.◌∷◌ c s) h = rw h

keep_char-tight : (c : Char) (r : String) → is_space c ≡ false → StartsTight (keep_char c r)
unfolding keep_char StartsTight
keep_char-tight c String.[] h = rw h h
keep_char-tight c (String.◌∷◌ d r) h = h

trim_right-tight : (s : String) → StartsTight s → StartsTight (trim_right s)
unfolding trim_right StartsTight
trim_right-tight String.[] h = tt
trim_right-tight (String.◌∷◌ c s) h = keep_char-tight c (trim_right s) h

trim_right-keep_char :
    (c : Char) (r : String) → trim_right r ≡ r → trim_right (keep_char c r) ≡ keep_char c r
unfolding trim_right
trim_right-keep_char c String.[] h = elim (Bool-cases (is_space c)) [
  | inl e ↦ rw e refl
  | inr e ↦ rw e (rw e refl)
]
trim_right-keep_char c (String.◌∷◌ d r) h = ap (keep_char c) h

trim_right_idem : (s : String) → trim_right (trim_right s) ≡ trim_right s
unfolding trim_right
trim_right_idem String.[] = refl
trim_right_idem (String.◌∷◌ c s) = trim_right-keep_char c (trim_right s) (trim_right_idem s)

-- Trimming twice is trimming once.
pub trim_space_idem : (s : String) → trim_space (trim_space s) ≡ trim_space s
unfolding trim_space
trim_space_idem s =
    rw
      (trim_left_of_tight (trim_right (trim_left s))
        (trim_right-tight (trim_left s) (trim_left-tight s)))
      (trim_right_idem (trim_left s))
