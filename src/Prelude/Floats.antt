-- ===== src/Prelude/Floats.antt =====
-- Go's float64, as a parameter: the operations and tests that the program uses.
use mathlib.Core.Bool.{Bool}
use codetrail.Prelude.Int.{ℤ}

pub record Floats (F : Type 0) : Type 0 where
  pub of_int : ℤ → F
  pub add : F → F → F
  pub mul : F → F → F
  pub quot : F → F → F
  -- `<`, `==` and math.IsNaN; every comparison with a NaN is false.
  pub lt : F → F → Bool
  pub feq : F → F → Bool
  pub is_nan : F → Bool
  pub nan : F
