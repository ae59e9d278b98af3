-- ===== src/Star/ChooseAxes/Count.antt =====
-- internal/star/chooseaxes.go (ChooseLeafCount): the product of the cardinalities.
use native.Mathlib.Nat.{mul-le-mul, mul_assoc, mul-suc}
use faultbox.Base.{ℕ, zero, suc, ◌*◌, ◌%◌, ◌^◌, ◌≤◌, ◌<◌, ◌≡◌, ap, ◌∙◌, List, [], ◌∷◌, arith}
use faultbox.Star.ChooseAxes.{
  ChooseAxis, axis_cardinality, multiply, at_least_one, choose_leaf_count,
}

unfoldable pub leaf_product : List ChooseAxis → ℕ
leaf_product [] = 1
leaf_product (a ∷ axes) = axis_cardinality a * leaf_product axes

pub axis_cardinality-positive : (a : ChooseAxis) → 1 ≤ axis_cardinality a
unfolding axis_cardinality
axis_cardinality-positive a = ground arith

pub leaf_product-positive : (axes : List ChooseAxis) → 1 ≤ leaf_product axes
unfolding leaf_product
leaf_product-positive [] = omega arith
leaf_product-positive (a ∷ axes) =
    omega (arith, mul-le-mul (axis_cardinality-positive a) (leaf_product-positive axes))

pub le-mul : (n k : ℕ) → 1 ≤ k → n ≤ n * k
le-mul n zero h = absurd (omega (arith, h))
le-mul n (suc k) h = omega (arith, mul-suc n k)

multiply-exact :
    (n : ℕ) (axes : List ChooseAxis)
    → n * leaf_product axes < 2 ^ 63
    → multiply n axes ≡ n * leaf_product axes
unfolding multiply leaf_product
multiply-exact n [] h = omega arith
multiply-exact n (a ∷ axes) h =
    let c : ℕ = axis_cardinality a in
    let p : ℕ = leaf_product axes in
    let same : n * c * p ≡ n * (c * p) = mul_assoc n c p in
    let small : n * c < 2 ^ 63 =
      omega (arith, le-mul (n * c) p (leaf_product-positive axes), same, h) in
    let kept : (n * c) % 2 ^ 64 ≡ n * c = omega (arith, small) in
    ap (λ m. multiply m axes) kept ∙ (multiply-exact (n * c) axes (omega (arith, same, h)) ∙ same)

-- The count is the product of the cardinalities, if that is below 2 ^ 63.
pub choose_leaf_count-product :
    (axes : List ChooseAxis)
    → leaf_product axes < 2 ^ 63
    → choose_leaf_count axes ≡ leaf_product axes
unfolding choose_leaf_count
choose_leaf_count-product axes h =
    let e : multiply 1 axes ≡ leaf_product axes =
      multiply-exact 1 axes (omega (arith, h)) ∙ omega arith in
    ap at_least_one e ∙ ground (arith, h, leaf_product-positive axes)
