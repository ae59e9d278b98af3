-- ===== src/Base/Float.antt =====
-- What the program uses of float64. The language's arithmetic on it is not modelled, so a
-- component that compares probabilities takes the type and its comparisons as an instance.
use mathlib.Core.Bool.{Bool}
use Prim.Native.Nat.{ℕ}
use faultbox.Base.Tests.{leb, ltb}

pub record Float (F : Type 0) : Type 0 where
  pub zero_f : F
  pub one_f : F
  pub le : F → F → Bool
  pub lt : F → F → Bool

-- Whole percents, to run the definitions with.
instance abbrev pub percent : Float ℕ
percent = record { zero_f = 0; one_f = 100; le = leb; lt = ltb }
