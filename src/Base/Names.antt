-- ===== src/Base/Names.antt =====
-- Membership of names in lists of them, and the keys of a map.
use mathlib.Core.Path.{◌≡◌, refl}
use mathlib.Core.Bool.{Bool, false, ◌||◌}
use mathlib.Core.List.{List, [], ◌∷◌, ◌++◌}
use mathlib.Core.Option.{none}
use mathlib.Core.Logic.{inl, inr}
use Prim.Native.String.{String}
use native.Mathlib.Omega.{arith}
use faultbox.Base.Tests.{Bool-cases}
use faultbox.Base.Text.{str_eq}
use faultbox.Base.Dict.{Dict, lookup}

unfoldable pub has : String → List String → Bool
has k [] = false
has k (j ∷ js) = str_eq j k || has k js

abbrev pub keys {ℓ} : {V : Type ℓ} → Dict V → List String
keys [] = []
keys ((k, v) ∷ m) = k ∷ keys m

pub has-append : (k : String) (xs ys : List String) → has k (xs ++ ys) ≡ (has k xs || has k ys)
unfolding has
has-append k [] ys = refl
has-append k (x ∷ xs) ys = ground (arith, has-append k xs ys)

pub lookup-absent {ℓ} :
    {V : Type ℓ} (k : String) (m : Dict V) → has k (keys m) ≡ false → lookup k m ≡ none
unfolding has lookup
lookup-absent k [] h = refl
lookup-absent k ((j, v) ∷ m) h = elim (Bool-cases (str_eq j k)) [
  | inl same ↦ absurd (ground (arith, same, h))
  | inr apart ↦ rw (apart) (lookup-absent k m (ground (arith, apart, h)))
]
