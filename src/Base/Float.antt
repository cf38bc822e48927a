-- ===== src/Base/Float.antt =====
-- IEEE 754 double precision, as far as the program uses it: an interface. The program's rates and
-- thresholds are values of it, and what a proof needs of rounding is a hypothesis of the theorem.
use mathlib.Core.Bool.{Bool}
use Prim.Native.Nat.{ℕ}
use gomind.Base.Int.{ℤ}

pub record Float64 : Type 1 where
  pub Float : Type 0
  -- float64(n)
  pub of_int : ℤ → Float
  -- The constant that is written in decimal as m / n: `literal 15 10` is 1.5.
  pub literal : ℕ → ℕ → Float
  pub mul : Float → Float → Float
  pub div : Float → Float → Float
  -- a < b, a <= b, a == b
  pub less : Float → Float → Bool
  pub at_most : Float → Float → Bool
  pub equal : Float → Float → Bool
  -- int64(f)
  pub trunc : Float → ℤ
