-- ===== src/Prelude/Numeric.antt =====
-- What the engine asks of `float64`: a type with the operations below. The laws that a theorem
-- needs of them stand among its hypotheses.
use mathlib.Core.Bool.{Bool}
use Prim.Native.Nat.{ℕ}

pub record Float (F : Type 0) : Type 0 where
  pub nought : F
  pub one : F
  pub add : F → F → F
  pub sub : F → F → F
  pub mul : F → F → F
  pub div : F → F → F
  pub lt : F → F → Bool
  pub eq : F → F → Bool
  pub of_int : ℕ → F
  pub abs : F → F
  pub neg : F → F
  pub sqrt : F → F
  pub exp : F → F
  pub log : F → F
  pub log2 : F → F
  pub infinity : F
  -- the float nearest to n / 10 ^ e, a constant of the source
  pub literal : ℕ → ℕ → F
