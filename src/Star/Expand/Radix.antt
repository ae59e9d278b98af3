-- ===== src/Star/Expand/Radix.antt =====
-- internal/star/nondet.go, `expandLeaves`: the index of a leaf as a number in mixed radix: one
-- digit for each axis, the first axis last.
use native.Mathlib.Nat.{
  mod-lt, mul_assoc, add-mul-mod_self_left, mod-eq_of_lt, add-mul-div_left, div-eq_of_lt, zero-add,
  mod-add-div, mul-suc, div-lt_iff_lt-mul, one-mul,
}
use mathlib.Core.Path.{ap₂}
use faultbox.Base.{
  ℕ, zero, suc, ◌+◌, ◌*◌, ◌/◌, ◌%◌, ◌^◌, ◌<◌, ◌≡◌, refl, ap, ◌∙◌, List, [], ◌∷◌, arith, All,
}
use faultbox.Star.Expand.{Axis, cardinality, not_negative, total_from, total_leaves}

mixed_below : (d c m p : ℕ) → d < c → m < p → d + c * m < c * p
mixed_below d c m p h k = grind arith

positive_factor : (i c p : ℕ) → i < c * p → 0 < c
positive_factor i zero p h = absurd (omega arith)
positive_factor i (suc c) p h = omega arith

mul_split : (a b : ℕ) → a * b ≡ (a % 2 ^ 64) * b + 2 ^ 64 * ((a / 2 ^ 64) * b)
mul_split a zero = omega arith
mul_split a (suc b) =
    omega (arith, mul_split a b, mul-suc a b, mul-suc (a % 2 ^ 64) b, mul-suc (a / 2 ^ 64) b)

mod-mul-mod : (a b : ℕ) → ((a % 2 ^ 64) * b) % 2 ^ 64 ≡ (a * b) % 2 ^ 64
mod-mul-mod a b =
    let q : ℕ = a / 2 ^ 64 in
    let split : a * b ≡ (a % 2 ^ 64) * b + 2 ^ 64 * (q * b) = mul_split a b in omega (arith, split)

module _ {V : Type 0} where
  abbrev pub FansOut : Axis V → Type 0
  FansOut a = 0 < cardinality a

  abbrev pub product : List (Axis V) → ℕ
  product [] = 1
  product (a ∷ more) = cardinality a * product more

  total_from-product :
      (total : ℕ) (axes : List (Axis V))
      → total < 2 ^ 64
      → total_from total axes ≡ (total * product axes) % 2 ^ 64
  unfolding total_from
  total_from-product total [] h = omega (arith, h)
  total_from-product total (a ∷ more) h =
      let c : ℕ = cardinality a in
      let p : ℕ = product more in
      total_from-product ((total * c) % 2 ^ 64) more (omega arith)
      ∙ mod-mul-mod (total * c) p
      ∙ ap (λ (t : ℕ). t % 2 ^ 64) (mul_assoc total c p)

  -- What does not wrap is the product.
  pub total_leaves-product :
      (axes : List (Axis V))
      → product axes < 2 ^ 63
      → not_negative (total_leaves axes) ≡ product axes
  unfolding total_leaves
  total_leaves-product axes h =
      let exact : total_from 1 axes ≡ product axes =
        total_from-product 1 axes (omega arith)
        ∙ ap (λ (t : ℕ). t % 2 ^ 64) (one-mul (product axes))
        ∙ omega (arith, h) in
      ap not_negative exact ∙ ground (arith, h)

  -- The digits that `stamp` hands to the axes.
  abbrev pub digits : List (Axis V) → ℕ → List ℕ
  digits [] rem = []
  digits (a ∷ more) rem = (rem % cardinality a) ∷ digits more (rem / cardinality a)

  -- One digit for each axis, below its cardinality.
  abbrev pub InRange : List (Axis V) → List ℕ → Type 0
  InRange [] [] = Unit
  InRange (a ∷ more) (d ∷ ds) = (d < cardinality a) × InRange more ds
  InRange _ _ = ⊥

  abbrev pub index_of : List (Axis V) → List ℕ → ℕ
  index_of (a ∷ more) (d ∷ ds) = d + cardinality a * index_of more ds
  index_of _ _ = 0

  pub digits-InRange :
      (axes : List (Axis V)) (i : ℕ) → All FansOut axes → InRange axes (digits axes i)
  digits-InRange [] i h = tt
  digits-InRange (a ∷ more) i h = (mod-lt i h.0, digits-InRange more (i / cardinality a) h.1)

  -- Every vector of digits is the digits of one index below the product.
  pub digits-index_of :
      (axes : List (Axis V)) (ds : List ℕ)
      → InRange axes ds
      → (digits axes (index_of axes ds) ≡ ds) × (index_of axes ds < product axes)
  digits-index_of [] [] r = (refl, omega arith)
  digits-index_of [] (d ∷ ds) r = absurd r
  digits-index_of (a ∷ more) [] r = absurd r
  digits-index_of (a ∷ more) (d ∷ ds) r =
      let (rest, below) = digits-index_of more ds r.1 in
      let m = index_of more ds in
      let first : (d + cardinality a * m) % cardinality a ≡ d =
        add-mul-mod_self_left d (cardinality a) m ∙ mod-eq_of_lt r.0 in
      let left : (d + cardinality a * m) / cardinality a ≡ m =
        add-mul-div_left d m {y = cardinality a} (omega arith)
        ∙ ap (λ (t : ℕ). t + m) (div-eq_of_lt r.0)
        ∙ zero-add m in
      (
        ap₂ ◌∷◌ first (ap (digits more) left ∙ rest),
        mixed_below d (cardinality a) m (product more) r.0 below,
      )

  pub index_of-digits :
      (axes : List (Axis V)) (i : ℕ) → i < product axes → index_of axes (digits axes i) ≡ i
  index_of-digits [] i h = omega arith
  index_of-digits (a ∷ more) i h =
      let below : i / cardinality a < product more =
        (div-lt_iff_lt-mul (positive_factor i (cardinality a) (product more) h)).1 (omega arith) in
      ap (λ (t : ℕ). i % cardinality a + cardinality a * t)
        (index_of-digits more (i / cardinality a) below)
      ∙ mod-add-div i (cardinality a)
