-- ===== src/Star/Expand/Cover.antt =====
-- internal/star/nondet.go, the leaves of an expansion: how many there are, and which assignments
-- they stand for.
use native.Mathlib.Nat.{add-zero, zero-add, pow-suc}
use mathlib.Core.Path.{ap₂}
use faultbox.Base.{
  ℕ, zero, suc, ◌+◌, ◌/◌, ◌%◌, ◌^◌, ◌<◌, ◌≡◌, refl, sym, ap, ◌∙◌, List, [], ◌∷◌, some, arith, All,
  get_elem?, length, ltb, Bool-cases, inl, inr,
}
use faultbox.Base.Int.{ℤ, pos, negsuc}
use faultbox.Star.Leaf.{PlanLeaf}
use faultbox.Star.Expand.{
  Axis, choice_axis, prob_axis, par_axis, cardinality, prob_cardinality, bits, bits_for, stamp,
  blank_leaf, leaves_from, expand_leaves, total_leaves, not_negative,
}
use faultbox.Star.Expand.Radix.{
  FansOut, digits, InRange, product, total_leaves-product, index_of, digits-InRange,
  digits-index_of, index_of-digits,
}
use faultbox.Star.Expand.Pins.{IsNamed, Distinct, Pinned, AllPinned, stamp-AllPinned, stamp-index}

-- The fire vectors of two digits are two vectors.
bits-injective :
    (n d e : ℕ)
    → d < 2 ^ n
    → e < 2 ^ n
    → ((k : ℕ) → get_elem? (bits n d) k ≡ get_elem? (bits n e) k)
    → d ≡ e
unfolding bits
bits-injective zero d e hd he same = omega arith
bits-injective (suc n) d e hd he same =
    let halves =
      bits-injective n (d / 2) (e / 2) (omega (arith, pow-suc 2 n)) (omega (arith, pow-suc 2 n))
        (λ k. same (suc k)) in
    let low : d % 2 ≡ e % 2 = ground (arith, same 0) in omega arith

bits_for-injective :
    (m : ℤ) (d e : ℕ)
    → d < prob_cardinality m
    → e < prob_cardinality m
    → ((k : ℕ) → get_elem? (bits_for m d) k ≡ get_elem? (bits_for m e) k)
    → d ≡ e
unfolding prob_cardinality bits_for
bits_for-injective (negsuc m) d e hd he same = absurd (omega arith)
bits_for-injective (pos zero) d e hd he same = absurd (omega arith)
bits_for-injective (pos (suc m)) d e hd he same = elim (Bool-cases (ltb (suc m) 63)) [
  | inl small ↦ bits-injective (suc m) d e (rw small at hd) (rw small at he) same
  | inr large ↦ absurd (omega (arith, rw large at hd))
]

module _ {V : Type 0} where
  All-FansOut : (axes : List (Axis V)) → All IsNamed axes → All FansOut axes
  All-FansOut [] h = tt
  All-FansOut (a ∷ more) h = (h.0.1, All-FansOut more h.1)

  leaves_from-get :
      (axes : List (Axis V)) (i n k : ℕ)
      → k < n
      → get_elem? (leaves_from axes i n) k ≡ some (stamp axes (i + k) (blank_leaf (i + k)))
  unfolding leaves_from
  leaves_from-get axes i zero k h = absurd (omega arith)
  leaves_from-get axes i (suc n) zero h = rw (add-zero i)
  leaves_from-get axes i (suc n) (suc k) h =
      let shift : i + suc k ≡ i + 1 + k = omega arith in
      rw shift (leaves_from-get axes (i + 1) n k (omega arith))

  length-leaves_from : (axes : List (Axis V)) (i n : ℕ) → length (leaves_from axes i n) ≡ n
  unfolding leaves_from
  length-leaves_from axes i zero = refl
  length-leaves_from axes i (suc n) = ap suc (length-leaves_from axes (i + 1) n)

  -- There is one leaf for each combination, if the product of the cardinalities does not wrap, and
  -- one for no axes.
  pub length-expand_leaves :
      (axes : List (Axis V)) → product axes < 2 ^ 63 → length (expand_leaves axes) ≡ product axes
  unfolding expand_leaves
  length-expand_leaves [] small = refl
  length-expand_leaves (a ∷ more) small =
      length-leaves_from (a ∷ more) 0 (not_negative (total_leaves (a ∷ more)))
      ∙ total_leaves-product (a ∷ more) small

  leaves_from-found :
      (axes : List (Axis V)) (i n k : ℕ) (leaf : PlanLeaf)
      → get_elem? (leaves_from axes i n) k ≡ some leaf
      → stamp axes (i + k) (blank_leaf (i + k)) ≡ leaf
  unfolding leaves_from
  leaves_from-found axes i zero k leaf found = absurd cc
  leaves_from-found axes i (suc n) zero leaf found = rw (add-zero i) (cc)
  leaves_from-found axes i (suc n) (suc k) leaf found =
      let shift : i + suc k ≡ i + 1 + k = omega arith in
      rw shift (leaves_from-found axes (i + 1) n k leaf found)

  -- A leaf of the plan tree is the one that its index stands for, wrapped or not.
  expand_leaves-found :
      (axes : List (Axis V)) (i : ℕ) (leaf : PlanLeaf)
      → i < product axes
      → get_elem? (expand_leaves axes) i ≡ some leaf
      → stamp axes i (blank_leaf i) ≡ leaf
  unfolding expand_leaves stamp
  expand_leaves-found [] zero leaf h found = cc
  expand_leaves-found [] (suc i) leaf h found = absurd (omega arith)
  expand_leaves-found (a ∷ more) i leaf h found =
      ap (λ (t : ℕ). stamp (a ∷ more) t (blank_leaf t)) (sym (zero-add i))
      ∙ leaves_from-found (a ∷ more) 0 (not_negative (total_leaves (a ∷ more))) i leaf found

  pub expand_leaves-get :
      (axes : List (Axis V)) (i : ℕ)
      → product axes < 2 ^ 63
      → i < product axes
      → get_elem? (expand_leaves axes) i ≡ some (stamp axes i (blank_leaf i))
  unfolding expand_leaves stamp
  expand_leaves-get [] zero small h = refl
  expand_leaves-get [] (suc i) small h = absurd (omega arith)
  expand_leaves-get (a ∷ more) i small h =
      leaves_from-get (a ∷ more) 0 (not_negative (total_leaves (a ∷ more))) i
        (omega (arith, total_leaves-product (a ∷ more) small, h))
      ∙ ap (λ (t : ℕ). some (stamp (a ∷ more) t (blank_leaf t))) (zero-add i)

  -- The leaf at an index, with its ordinal and the assignment that it pins.
  pub expand_leaves-Pinned :
      (axes : List (Axis V)) (i : ℕ)
      → All IsNamed axes
      → Distinct axes
      → product axes < 2 ^ 63
      → i < product axes
      → (leaf : PlanLeaf) × (get_elem? (expand_leaves axes) i ≡ some leaf)
        × (leaf.index ≡ i)
        × AllPinned axes (digits axes i) leaf
  expand_leaves-Pinned axes i named apart small h = (
    stamp axes i (blank_leaf i),
    expand_leaves-get axes i small h,
    stamp-index axes i (blank_leaf i),
    stamp-AllPinned axes i (blank_leaf i) named apart,
  )

  -- Every assignment of the axes is run, if their product does not wrap: some leaf, and its index
  -- says which, pins each axis to the digit that the assignment gives it.
  pub expand_leaves-covers :
      (axes : List (Axis V)) (ds : List ℕ)
      → All IsNamed axes
      → Distinct axes
      → InRange axes ds
      → product axes < 2 ^ 63
      → (i : ℕ) × (leaf : PlanLeaf) × (get_elem? (expand_leaves axes) i ≡ some leaf)
        × (leaf.index ≡ i)
        × AllPinned axes ds leaf
  expand_leaves-covers axes ds named apart range small =
      let (same, below) = digits-index_of axes ds range in
      let (leaf, found, ordinal, pinned) =
        expand_leaves-Pinned axes (index_of axes ds) named apart small below in
      (index_of axes ds, leaf, found, ordinal, rw same at pinned)

  Pinned-unique :
      (a : Axis V) (d e : ℕ) (leaf : PlanLeaf)
      → d < cardinality a
      → e < cardinality a
      → Pinned a d leaf
      → Pinned a e leaf
      → d ≡ e
  unfolding cardinality
  Pinned-unique (choice_axis c) d e leaf hd he p q = cc
  Pinned-unique (prob_axis s) d e leaf hd he p q =
      bits_for-injective s.max_fires d e hd he (λ k. sym (p k) ∙ q k)
  Pinned-unique (par_axis s) d e leaf hd he p q = cc

  AllPinned-unique :
      (axes : List (Axis V)) (ds es : List ℕ) (leaf : PlanLeaf)
      → InRange axes ds
      → InRange axes es
      → AllPinned axes ds leaf
      → AllPinned axes es leaf
      → ds ≡ es
  AllPinned-unique [] [] [] leaf hd he p q = refl
  AllPinned-unique [] [] (e ∷ es) leaf hd he p q = absurd he
  AllPinned-unique [] (d ∷ ds) es leaf hd he p q = absurd hd
  AllPinned-unique (a ∷ more) [] es leaf hd he p q = absurd hd
  AllPinned-unique (a ∷ more) (d ∷ ds) [] leaf hd he p q = absurd he
  AllPinned-unique (a ∷ more) (d ∷ ds) (e ∷ es) leaf hd he p q =
      ap₂ ◌∷◌ (Pinned-unique a d e leaf hd.0 he.0 p.0 q.0)
        (AllPinned-unique more ds es leaf hd.1 he.1 p.1 q.1)

  index_from_pins :
      (axes : List (Axis V)) (i : ℕ) (ds : List ℕ) (leaf : PlanLeaf)
      → All IsNamed axes
      → Distinct axes
      → InRange axes ds
      → i < product axes
      → get_elem? (expand_leaves axes) i ≡ some leaf
      → AllPinned axes ds leaf
      → i ≡ index_of axes ds
  index_from_pins axes i ds leaf named apart range h found pinned =
      let pins = stamp-AllPinned axes i (blank_leaf i) named apart in
      let same = expand_leaves-found axes i leaf h found in
      sym (index_of-digits axes i h)
      ∙ ap (index_of axes) (
          AllPinned-unique axes (digits axes i) ds leaf
            (digits-InRange axes i (All-FansOut axes named)) range (rw same at pins) pinned)

  -- No assignment is run twice: two leaves that pin every axis to the same digits are one leaf.
  pub expand_leaves_unique :
      (axes : List (Axis V)) (i j : ℕ) (ds : List ℕ) (leaf leaf' : PlanLeaf)
      → All IsNamed axes
      → Distinct axes
      → InRange axes ds
      → i < product axes
      → j < product axes
      → get_elem? (expand_leaves axes) i ≡ some leaf
      → get_elem? (expand_leaves axes) j ≡ some leaf'
      → AllPinned axes ds leaf
      → AllPinned axes ds leaf'
      → i ≡ j
  expand_leaves_unique axes i j ds leaf leaf' named apart range hi hj fi fj pi pj =
      index_from_pins axes i ds leaf named apart range hi fi pi
      ∙ sym (index_from_pins axes j ds leaf' named apart range hj fj pj)
