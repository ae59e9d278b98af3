-- ===== src/Star/Tests.antt =====
-- Runs of the plan tree, and the theorems at concrete sites.
use mathlib.Core.List.{Perm}
use faultbox.Base.{ℕ, ◌≡◌, refl, false, List, [], ◌∷◌, none, some, get_elem?, All, arith}
use faultbox.Base.Dict.{lookup, insert}
use faultbox.Base.Int.{pos}
use faultbox.Star.Leaf.{
  ChoiceVal, ProbFaultSite, ParallelSite, PlanLeaf, all, first_n, option_index, collect_named_axes,
  record_prob_fault, record_parallel_site,
}
use faultbox.Star.Expand.{
  Axis, choice_axis, prob_axis, par_axis, cardinality, prob_cardinality, interleaving_cardinality,
  factorial, orderings, fans_out, collect_choices, expand_leaves, enumerate_leaves, leaves_from,
  stamp, apply, total_leaves, total_from,
}
use faultbox.Star.Expand.Radix.{InRange}
use faultbox.Star.Expand.Pins.{AllPinned, Distinct, IsNamed}
use faultbox.Star.Expand.Cover.{expand_leaves_unique}
use faultbox.Star.Expand.Sites.{prob_sites, par_sites}
use faultbox.Star.Expand.Run.{discovered, discovered-covers}
use faultbox.Star.Interleavings.{
  permutation_by_index, permutation_from, pick, range_from, delete_at, identity_ordering,
  interleaving_ordering, divide,
}
use faultbox.Star.Interleavings.Permutation.{interleaving_ordering-Perm}
use faultbox.Star.Interleavings.Distinct.{interleaving_ordering-injective}

abbrev mode_choice : ChoiceVal ℕ
mode_choice = record { name = "mode"; options = 10 ∷ 20 ∷ 30 ∷ [] }

abbrev flaky : ProbFaultSite
flaky = record { key = "db.write"; max_fires = pos 2 }

abbrev race : ParallelSite
race = record { key = "race"; branches = 3; policy = record { kind = all; n = 0 } }

abbrev axes : List (Axis ℕ)
axes = choice_axis mode_choice ∷ prob_axis flaky ∷ par_axis race ∷ []

axes-IsNamed : All IsNamed axes
unfolding cardinality prob_cardinality interleaving_cardinality orderings factorial
axes-IsNamed = ((λ e. cc, omega arith), ((λ e. cc, omega arith), ((λ e. cc, omega arith), tt)))

axes-Distinct : Distinct axes
axes-Distinct = ((tt, (tt, tt)), ((tt, tt), (tt, tt)))

last-InRange : InRange axes (2 ∷ 1 ∷ 5 ∷ [])
unfolding cardinality prob_cardinality interleaving_cardinality orderings factorial
last-InRange = (omega arith, (omega arith, (omega arith, tt)))

permutation_by_index_last : permutation_by_index 3 5 ≡ some (2 ∷ 1 ∷ 0 ∷ [])
unfolding permutation_by_index permutation_from divide pick range_from delete_at factorial
permutation_by_index_last = refl

discovered-covers_example :
    (i : ℕ) × (leaf : PlanLeaf) × (get_elem?
        (enumerate_leaves
          (collect_named_axes (some mode_choice ∷ none ∷ some mode_choice ∷ []))
          (prob_sites [] (flaky ∷ flaky ∷ []))
          (par_sites [] (race ∷ [])))
        i
      ≡ some leaf)
    × (leaf.index ≡ i)
    × AllPinned
        (discovered
          (some mode_choice ∷ none ∷ some mode_choice ∷ [])
          (flaky ∷ flaky ∷ [])
          (race ∷ []))
        (2 ∷ 1 ∷ 5 ∷ [])
        leaf
discovered-covers_example =
    discovered-covers (some mode_choice ∷ none ∷ some mode_choice ∷ []) (flaky ∷ flaky ∷ [])
      (race ∷ []) (2 ∷ 1 ∷ 5 ∷ [])
      (unfold discovered collect_choices collect_named_axes fans_out prob_sites par_sites
          record_prob_fault record_parallel_site cardinality prob_cardinality
          interleaving_cardinality orderings factorial in
        last-InRange)
      (unfold discovered collect_choices collect_named_axes fans_out prob_sites par_sites
          record_prob_fault record_parallel_site cardinality prob_cardinality
          interleaving_cardinality orderings factorial in
        omega arith)

abbrev one_axis : List (Axis ℕ)
one_axis = choice_axis mode_choice ∷ []

abbrev third_leaf : PlanLeaf
third_leaf = record {
  index = 2;
  choices = ("mode", 2) ∷ [];
  probability_outcomes = [];
  is_discovery = false;
  interleaving_ids = [];
}

third_found : get_elem? (expand_leaves one_axis) 2 ≡ some third_leaf
unfolding expand_leaves leaves_from stamp apply cardinality total_leaves total_from insert
third_found = refl

third_pinned : option_index (some third_leaf) "mode" ≡ some 2
unfolding option_index lookup
third_pinned = refl

expand_leaves_unique_example : ◌≡◌ {A = ℕ} 2 2
expand_leaves_unique_example =
    expand_leaves_unique one_axis 2 2 (2 ∷ []) third_leaf third_leaf (axes-IsNamed.0, tt) (tt, tt)
      (last-InRange.0, tt) (unfold cardinality in omega arith) (unfold cardinality in omega arith)
      third_found third_found (third_pinned, tt) (third_pinned, tt)

interleaving_ordering-Perm_example :
    (order : List ℕ) × (interleaving_ordering race 4 ≡ some order)
    × Perm order (identity_ordering 3)
interleaving_ordering-Perm_example = interleaving_ordering-Perm race 4 (omega arith)

race_fifth : interleaving_ordering race 4 ≡ some (2 ∷ 0 ∷ 1 ∷ [])
unfolding interleaving_ordering permutation_by_index permutation_from divide pick range_from
    delete_at factorial
race_fifth = refl

interleaving_ordering-injective_example : ◌≡◌ {A = ℕ} 4 4
interleaving_ordering-injective_example =
    interleaving_ordering-injective race 4 4 (2 ∷ 0 ∷ 1 ∷ [])
      (unfold interleaving_cardinality orderings factorial in omega arith)
      (unfold interleaving_cardinality orderings factorial in omega arith) race_fifth race_fifth

abbrev many_branches : ℕ → ParallelSite
many_branches n = record { key = "many"; branches = n; policy = record { kind = first_n; n = 5 } }

-- Twenty-one branches have a negative factorial, and add no leaf.
no_leaf_of_21 : interleaving_cardinality (many_branches 21) ≡ 0
unfolding interleaving_cardinality orderings factorial
no_leaf_of_21 = refl

-- With 67 branches the first division of `permutationByIndex` is by 0.
panic_at_67 : interleaving_ordering (many_branches 67) 1 ≡ none
unfolding interleaving_ordering permutation_by_index permutation_from divide range_from factorial
panic_at_67 = refl
