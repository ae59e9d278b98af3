-- ===== src/Star/Expand/Run.antt =====
-- internal/star/leaf.go and nondet.go: the axes of a run, and the plan tree that they fan out to.
use faultbox.Base.{
  ℕ, ◌^◌, ◌<◌, ◌≡◌, ◌≢◌, sym, List, [], ◌∷◌, ◌++◌, map, Option, some, All, get_elem?,
}
use faultbox.Star.Leaf.{PlanLeaf, ChoiceVal, ProbFaultSite, ParallelSite, collect_named_axes}
use faultbox.Star.Expand.{
  Axis, choice_axis, prob_axis, par_axis, fans_out, collect_choices, enumerate_leaves,
}
use faultbox.Star.Expand.Radix.{InRange, product}
use faultbox.Star.Expand.Pins.{key_of, IsNamed, Apart, Distinct, AllPinned}
use faultbox.Star.Expand.Cover.{expand_leaves-covers}
use faultbox.Star.Expand.Apart.{
  NewName, Names-Distinct, named_axes-Distinct, choices-Distinct, fans_out-All, fans_out-Distinct,
  fans_out-IsNamed, All-append, Distinct-append,
}
use faultbox.Star.Expand.Sites.{
  GoodKeys, prob_sites, par_sites, prob_sites-GoodKeys, par_sites-GoodKeys,
}

prob-Apart :
    (V : Type 0) (k : ProbFaultSite) (sites : List ProbFaultSite)
    → All (λ j. k.key ≢ j) (map (λ s. s.key) sites)
    → All (λ (b : Axis V). Apart b (prob_axis k)) (map prob_axis sites)
prob-Apart V k [] h = tt
prob-Apart V k (s ∷ sites) h = (λ e. h.0 (sym e), prob-Apart V k sites h.1)

prob-Distinct :
    (V : Type 0) (sites : List ProbFaultSite)
    → GoodKeys (map (λ s. s.key) sites)
    → Distinct {V = V} (map prob_axis sites)
      × All (λ (a : Axis V). key_of a ≢ "") (map prob_axis sites)
prob-Distinct V [] h = (tt, tt)
prob-Distinct V (s ∷ sites) h =
    let (apart, named) = prob-Distinct V sites h.2 in
    ((prob-Apart V s sites h.1, apart), (h.0, named))

par-Apart :
    (V : Type 0) (k : ParallelSite) (sites : List ParallelSite)
    → All (λ j. k.key ≢ j) (map (λ s. s.key) sites)
    → All (λ (b : Axis V). Apart b (par_axis k)) (map par_axis sites)
par-Apart V k [] h = tt
par-Apart V k (s ∷ sites) h = (λ e. h.0 (sym e), par-Apart V k sites h.1)

par-Distinct :
    (V : Type 0) (sites : List ParallelSite)
    → GoodKeys (map (λ s. s.key) sites)
    → Distinct {V = V} (map par_axis sites)
      × All (λ (a : Axis V). key_of a ≢ "") (map par_axis sites)
par-Distinct V [] h = (tt, tt)
par-Distinct V (s ∷ sites) h =
    let (apart, named) = par-Distinct V sites h.2 in
    ((par-Apart V s sites h.1, apart), (h.0, named))

prob-par :
    (V : Type 0) (p : ProbFaultSite) (ss : List ParallelSite)
    → All (λ (b : Axis V). Apart b (prob_axis p)) (map par_axis ss)
prob-par V p [] = tt
prob-par V p (s ∷ ss) = (tt, prob-par V p ss)

probs-Apart :
    (V : Type 0) (ps : List ProbFaultSite) (ss : List ParallelSite)
    → All (λ (a : Axis V). All (λ b. Apart b a) (fans_out (map par_axis ss))) (map prob_axis ps)
probs-Apart V [] ss = tt
probs-Apart V (p ∷ ps) ss = (fans_out-All _ _ (prob-par V p ss), probs-Apart V ps ss)

module _ {V : Type 0} where
  -- The axes of a run, as `runTestFanout` hands them to the enumerator.
  unfoldable pub discovered :
      List (Option (ChoiceVal V)) → List ProbFaultSite → List ParallelSite → List (Axis V)
  discovered choices probs pars =
      collect_choices (collect_named_axes choices) (prob_sites [] probs) (par_sites [] pars)

  named-keys :
      (cs : List (ChoiceVal V))
      → All (NewName []) cs
      → All (λ (a : Axis V). key_of a ≢ "") (map choice_axis cs)
  named-keys [] h = tt
  named-keys (c ∷ cs) h = (h.0.1, named-keys cs h.1)

  choice-prob :
      (c : ChoiceVal V) (ps : List ProbFaultSite)
      → All (λ b. Apart b (choice_axis c)) (map prob_axis ps)
  choice-prob c [] = tt
  choice-prob c (p ∷ ps) = (tt, choice-prob c ps)

  choice-par :
      (c : ChoiceVal V) (ss : List ParallelSite)
      → All (λ b. Apart b (choice_axis c)) (map par_axis ss)
  choice-par c [] = tt
  choice-par c (s ∷ ss) = (tt, choice-par c ss)

  choices-Apart :
      (cs : List (ChoiceVal V)) (ps : List ProbFaultSite) (ss : List ParallelSite)
      → All
          (λ a. All (λ b. Apart b a) (fans_out (map prob_axis ps) ++ fans_out (map par_axis ss)))
          (map choice_axis cs)
  choices-Apart [] ps ss = tt
  choices-Apart (c ∷ cs) ps ss = (
    All-append _ _ _ (fans_out-All _ _ (choice-prob c ps)) (fans_out-All _ _ (choice-par c ss)),
    choices-Apart cs ps ss,
  )

  joined-Distinct :
      (cs : List (ChoiceVal V)) (ps : List ProbFaultSite) (ss : List ParallelSite)
      → All (NewName []) cs × Names-Distinct cs
      → GoodKeys (map (λ s. s.key) ps)
      → GoodKeys (map (λ s. s.key) ss)
      → All IsNamed (collect_choices cs ps ss) × Distinct (collect_choices cs ps ss)
  unfolding collect_choices
  joined-Distinct cs ps ss hc hp hs =
      let (prob_apart, prob_named) = prob-Distinct V ps hp in
      let (par_apart, par_named) = par-Distinct V ss hs in
      (
        All-append _ _ _ (fans_out-IsNamed _ (named-keys cs hc.0))
            (All-append _ _ _ (fans_out-IsNamed _ prob_named) (fans_out-IsNamed _ par_named)),
        Distinct-append _ _ (fans_out-Distinct _ (choices-Distinct cs hc.1))
            (Distinct-append _ _ (fans_out-Distinct _ prob_apart) (fans_out-Distinct _ par_apart)
              (fans_out-All _ _ (probs-Apart V ps ss)))
            (fans_out-All _ _ (choices-Apart cs ps ss)),
      )

  -- Whatever a run records, its axes all fan out, are all named, and no two of a kind share a key.
  discovered-Distinct :
      (choices : List (Option (ChoiceVal V))) (probs : List ProbFaultSite)
      (pars : List ParallelSite)
      → All IsNamed (discovered choices probs pars) × Distinct (discovered choices probs pars)
  unfolding discovered collect_named_axes
  discovered-Distinct choices probs pars =
      joined-Distinct _ _ _ (named_axes-Distinct [] choices) (prob_sites-GoodKeys [] probs tt)
        (par_sites-GoodKeys [] pars tt)

  -- Whatever a run recorded, if the product of the cardinalities of its axes is below 2 ^ 63, its
  -- plan tree has a leaf for every assignment of an option, a fire vector and an ordering to the
  -- axes, and the leaf gives each reader what is assigned.
  pub discovered-covers :
      (choices : List (Option (ChoiceVal V))) (probs : List ProbFaultSite)
      (pars : List ParallelSite) (ds : List ℕ)
      → InRange (discovered choices probs pars) ds
      → product (discovered choices probs pars) < 2 ^ 63
      → (i : ℕ) × (leaf : PlanLeaf) × (get_elem?
            (enumerate_leaves
              (collect_named_axes choices)
              (prob_sites [] probs)
              (par_sites [] pars))
            i
          ≡ some leaf)
        × (leaf.index ≡ i)
        × AllPinned (discovered choices probs pars) ds leaf
  unfolding discovered enumerate_leaves
  discovered-covers choices probs pars ds range small =
      let (named, apart) = discovered-Distinct choices probs pars in
      expand_leaves-covers _ ds named apart range small
