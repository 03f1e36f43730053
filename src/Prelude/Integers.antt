-- ===== src/Prelude/Integers.antt =====
-- Go's `int` where it may be negative, over the native numbers.
use Prim.Native.Nat.{ℕ, zero, suc}
use mathlib.Core.Bool.{Bool, true, false}
use siembox_endpoint.Prelude.Tests.{leb, ◌==◌}

pub data ℤ : Type 0 where
  pos : ℕ → ℤ
  negsuc : ℕ → ℤ

-- `if v <= 0 { v = def }`
abbrev pub positive_or : ℕ → ℤ → ℕ
positive_or def (pos zero) = def
positive_or def (pos (suc n)) = suc n
positive_or def (negsuc n) = def

abbrev pub int_le : ℤ → ℤ → Bool
int_le (pos a) (pos b) = leb a b
int_le (pos a) (negsuc b) = false
int_le (negsuc a) (pos b) = true
int_le (negsuc a) (negsuc b) = leb b a

abbrev pub int_eq : ℤ → ℤ → Bool
int_eq (pos a) (pos b) = a == b
int_eq (negsuc a) (negsuc b) = a == b
int_eq _ _ = false
