-- ===== src/Base/Int.antt =====
-- Go's `int` where only its order matters; `negsuc n` is -(n + 1).
use Prim.Native.Nat.{ℕ}
use mathlib.Core.Bool.{Bool, true, false}
use mathlib.Core.Path.{◌≡◌}
use mathlib.Core.Logic.{◌↔◌}
use native.Mathlib.Omega.{arith}
use knowlega.Base.Tests.{ltb, ◌=ℕ◌}

pub data ℤ : Type 0 where
  pos : ℕ → ℤ
  negsuc : ℕ → ℤ

abbrev pub ltz : ℤ → ℤ → Bool
ltz (pos a) (pos b) = ltb a b
ltz (pos a) (negsuc b) = false
ltz (negsuc a) (pos b) = true
ltz (negsuc a) (negsuc b) = ltb b a

abbrev pub eqz : ℤ → ℤ → Bool
eqz (pos a) (pos b) = a =ℕ b
eqz (pos a) (negsuc b) = false
eqz (negsuc a) (pos b) = false
eqz (negsuc a) (negsuc b) = a =ℕ b

pub eqz_iff : (a b : ℤ) → (eqz a b ≡ true) ↔ (a ≡ b)
eqz_iff (pos a) (pos b) = ground arith
eqz_iff (pos a) (negsuc b) = ground arith
eqz_iff (negsuc a) (pos b) = ground arith
eqz_iff (negsuc a) (negsuc b) = ground arith
