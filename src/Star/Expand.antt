-- ===== src/Star/Expand.antt =====
-- internal/star/nondet.go, with `interleavingCardinality` and `enumerateLeaves` of leaf.go: the
-- cross product of the axes. The interface `NonDeterministicChoice` is a data type with a
-- constructor for each implementation. An `int` product is the natural number of its 64 bits; a
-- negative `int` has the bits of 2 ^ 63 and more.
pub mod Radix
pub mod Pins
pub mod Cover
pub mod Apart
pub mod Sites
pub mod Run
use faultbox.Base.{
  ℕ, zero, suc, ◌+◌, ◌-◌, ◌*◌, ◌/◌, ◌%◌, ◌^◌, Bool, true, false, ◌||◌, List, [], ◌∷◌, ◌++◌, map,
  Option, none, some, String, str_eq, ltb, leb, ◌==◌, if◌then◌else◌, length,
}
use faultbox.Base.Dict.{Dict, insert}
use faultbox.Base.Int.{ℤ, pos, negsuc, leb_ℤ}
use faultbox.Star.Leaf.{
  PlanLeaf, ChoiceVal, ProbFaultSite, PolicyKind, single, all, critical, first_n, unknown_kind,
  ParallelSite,
}

-- The loop `for i := 2; i <= n; i++ { factorial *= i }`, which wraps from 21 on and is 0 from 66 on.
unfoldable pub factorial : ℕ → ℕ
factorial zero = 1
factorial (suc n) = (factorial n * suc n) % 2 ^ 64

-- A negative `int` as 0: neither counts leaves, and no index is below either.
abbrev pub not_negative : ℕ → ℕ
not_negative bits = if ltb bits (2 ^ 63) then bits else 0

unfoldable pub orderings : ℕ → ℕ
orderings n = not_negative (factorial n)

-- `2 * branches - 1`, or the factorial where that is smaller
unfoldable pub critical_cap : ℕ → ℕ
unfolding orderings
critical_cap n = if ltb (orderings n) (2 * n - 1) then orderings n else 2 * n - 1

abbrev pub policy_cardinality : PolicyKind → ℕ → ℕ → ℕ
policy_cardinality single branches n = 0
policy_cardinality all branches n = orderings branches
policy_cardinality first_n branches n = if ltb n (orderings branches) then n else orderings branches
policy_cardinality critical branches n = critical_cap branches
policy_cardinality unknown_kind branches n = 0

unfoldable pub interleaving_cardinality : ParallelSite → ℕ
interleaving_cardinality s =
    if ltb s.branches 2 then 0 else policy_cardinality s.policy.kind s.branches s.policy.n

-- `1 << MaxFires`: shifts of 63 and more leave a negative `int` or 0, which are no fan-out alike.
unfoldable pub prob_cardinality : ℤ → ℕ
prob_cardinality (negsuc k) = 0
prob_cardinality (pos zero) = 0
prob_cardinality (pos (suc k)) = if ltb (suc k) 63 then 2 ^ suc k else 0

pub data Axis (V : Type 0) : Type 0 where
  choice_axis : ChoiceVal V → Axis V
  prob_axis : ProbFaultSite → Axis V
  par_axis : ParallelSite → Axis V

-- `vec[b] = (digit>>b)&1 == 1`, for b below `n`
unfoldable pub bits : ℕ → ℕ → List Bool
bits zero digit = []
bits (suc n) digit = (digit % 2 == 1) ∷ bits n (digit / 2)

unfoldable pub bits_for : ℤ → ℕ → List Bool
bits_for (negsuc k) digit = []
bits_for (pos n) digit = bits n digit

abbrev pub blank_leaf : ℕ → PlanLeaf
blank_leaf i = record {
  index = i;
  choices = [];
  probability_outcomes = [];
  is_discovery = false;
  interleaving_ids = [];
}

module _ {V : Type 0} where
  unfoldable pub cardinality : Axis V → ℕ
  cardinality (choice_axis c) =
      if str_eq c.name "" || ltb (length c.options) 2 then 0 else length c.options
  cardinality (prob_axis p) = prob_cardinality p.max_fires
  cardinality (par_axis p) = interleaving_cardinality p

  unfoldable pub apply : Axis V → ℕ → PlanLeaf → PlanLeaf
  apply (choice_axis c) digit leaf =
      if str_eq c.name "" then leaf else record leaf { choices = insert c.name digit leaf.choices }
  apply (prob_axis p) digit leaf =
      if str_eq p.key "" || leb_ℤ p.max_fires (pos 0) then leaf else record leaf {
        probability_outcomes = insert p.key (bits_for p.max_fires digit) leaf.probability_outcomes;
      }
  apply (par_axis p) digit leaf =
      if str_eq p.key ""
      then leaf
      else record leaf { interleaving_ids = insert p.key digit leaf.interleaving_ids }

  unfoldable pub fans_out : List (Axis V) → List (Axis V)
  fans_out [] = []
  fans_out (a ∷ more) = if ltb 0 (cardinality a) then a ∷ fans_out more else fans_out more

  unfoldable pub collect_choices :
      List (ChoiceVal V) → List ProbFaultSite → List ParallelSite → List (Axis V)
  unfolding fans_out
  collect_choices axes probs pars =
      fans_out (map choice_axis axes)
      ++ (fans_out (map prob_axis probs) ++ fans_out (map par_axis pars))

  -- `total *= c.Cardinality()`, which wraps
  unfoldable pub total_from : ℕ → List (Axis V) → ℕ
  total_from total [] = total
  total_from total (a ∷ more) = total_from ((total * cardinality a) % 2 ^ 64) more

  unfoldable pub total_leaves : List (Axis V) → ℕ
  total_leaves axes = total_from 1 axes

  -- The inner loop, with what is left of the leaf's index in `rem`.
  unfoldable pub stamp : List (Axis V) → ℕ → PlanLeaf → PlanLeaf
  stamp [] rem leaf = leaf
  stamp (a ∷ more) rem leaf = stamp more (rem / cardinality a) (apply a (rem % cardinality a) leaf)

  -- The outer loop, for `count` leaves from index `i`.
  unfoldable pub leaves_from : List (Axis V) → ℕ → ℕ → List PlanLeaf
  leaves_from axes i zero = []
  leaves_from axes i (suc count) = stamp axes i (blank_leaf i) ∷ leaves_from axes (i + 1) count

  -- `make` panics for a negative total: that is no leaf here.
  unfoldable pub expand_leaves : List (Axis V) → List PlanLeaf
  expand_leaves [] = blank_leaf 0 ∷ []
  expand_leaves (a ∷ more) = leaves_from (a ∷ more) 0 (not_negative (total_leaves (a ∷ more)))

  unfoldable pub enumerate_leaves :
      List (ChoiceVal V) → List ProbFaultSite → List ParallelSite → List PlanLeaf
  enumerate_leaves axes probs pars = expand_leaves (collect_choices axes probs pars)
