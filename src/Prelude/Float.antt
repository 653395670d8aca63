-- ===== src/Prelude/Float.antt =====
-- Go's floating point numbers: a type with the operations that the program uses. What the theorems
-- need of them stands in their hypotheses.
use Prim.Native.Nat.{ℕ}
use mathlib.Core.Bool.{Bool}
use sentinellog.Prelude.Int.{ℤ}

pub record Float : Type 1 where
  pub F : Type 0
  pub of_nat : ℕ → F
  pub of_int : ℤ → F
  pub ratio : ℕ → ℕ → F  -- the constant that a decimal literal stands for, as a fraction
  pub add : F → F → F
  pub sub : F → F → F
  pub mul : F → F → F
  pub div : F → F → F
  pub neg : F → F
  pub abs : F → F
  pub sqrt : F → F
  pub log2 : F → F
  pub lt : F → F → Bool
  pub le : F → F → Bool
  pub eq : F → F → Bool
