-- ===== src/Common/Float.antt =====
-- float64, which the checker does not have: its operations are a parameter of the models that use
-- it. A law that a theorem needs is a hypothesis of that theorem.
use compkg.Common.{Bool}
use compkg.Common.Int.{ℤ}

pub record Float64 : Type 1 where
  pub Float : Type 0
  pub of_int : ℤ → Float
  pub add : Float → Float → Float
  pub sub : Float → Float → Float
  pub mul : Float → Float → Float
  pub div : Float → Float → Float
  pub abs : Float → Float
  pub lt : Float → Float → Bool
  pub eq : Float → Float → Bool
  -- Equality of the bits that math.Float64bits gives.
  pub same_bits : Float → Float → Bool
  -- `int(x)`, which cuts the fraction off.
  pub to_int : Float → ℤ
  -- math.SmallestNonzeroFloat64 and math.MaxFloat64
  pub smallest : Float
  pub largest : Float
