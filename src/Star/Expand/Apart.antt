-- ===== src/Star/Expand/Apart.antt =====
-- internal/star/leaf.go, interleavings.go and nondet.go: the names of a run's axes, through
-- `collectNamedAxes`, `recordProbFault`, `recordParallelSite` and `collectChoices`.
use faultbox.Base.{
  ◌≡◌, ◌≢◌, sym, false, ◌||◌, List, [], ◌∷◌, ◌++◌, map, Option, none, some, arith, All, length,
  String, str_eq, eq_iff, ltb, ltb→lt, Bool-cases, inl, inr,
}
use faultbox.Star.Leaf.{ChoiceVal, named_axes, seen_name}
use faultbox.Star.Expand.{Axis, choice_axis, cardinality, fans_out}
use faultbox.Star.Expand.Pins.{key_of, IsNamed, Apart, Distinct}

-- Keys that no earlier site has, and that are not empty.
abbrev pub NewName : {V : Type 0} → List String → ChoiceVal V → Type 0
NewName seen c = (seen_name c.name seen ≡ false) × (c.name ≢ "")

module _ {V : Type 0} where
  All-weaken :
      (n : String) (seen : List String) (cs : List (ChoiceVal V))
      → All (NewName (n ∷ seen)) cs
      → All (NewName seen) cs × All (λ c. n ≢ c.name) cs
  All-weaken n seen [] h = (tt, tt)
  All-weaken n seen (c ∷ cs) h =
      let (rest, apart) = All-weaken n seen cs h.1 in
      ((ground (arith, h.0.0), rest), (λ e. ground (arith, h.0.0, (eq_iff n c.name).1 e), apart))

  abbrev pub Names-Distinct : List (ChoiceVal V) → Type 0
  Names-Distinct [] = Unit
  Names-Distinct (c ∷ cs) = All (λ d. c.name ≢ d.name) cs × Names-Distinct cs

  pub named_axes-Distinct :
      (seen : List String) (cs : List (Option (ChoiceVal V)))
      → All (NewName seen) (named_axes seen cs) × Names-Distinct (named_axes seen cs)
  unfolding named_axes
  named_axes-Distinct seen [] = (tt, tt)
  named_axes-Distinct seen (none ∷ cs) = named_axes-Distinct seen cs
  named_axes-Distinct seen (some c ∷ cs) =
      let skipped = named_axes-Distinct seen cs in
      let kept = named_axes-Distinct (c.name ∷ seen) cs in
      let (older, apart) = All-weaken c.name seen (named_axes (c.name ∷ seen) cs) kept.0 in
      elim (Bool-cases (str_eq c.name "" || ltb (length c.options) 2)) [
        | inl small ↦ rw small skipped
        | inr large ↦ elim (Bool-cases (seen_name c.name seen)) [
          | inl old ↦ rw (large, old) skipped
          | inr new ↦
              rw (large, new) (((new, ground (arith, eq_iff c.name "")), older), (apart, kept.1))
        ]
      ]

  -- Lists of axes of one kind, and the joining of them.
  pub choices-Distinct :
      (cs : List (ChoiceVal V)) → Names-Distinct cs → Distinct (map choice_axis cs)
  choices-Distinct [] h = tt
  choices-Distinct (c ∷ cs) h = (others c cs h.0, choices-Distinct cs h.1)
    where
      others :
          (c : ChoiceVal V) (cs : List (ChoiceVal V))
          → All (λ d. c.name ≢ d.name) cs
          → All (λ (b : Axis V). Apart b (choice_axis c)) (map choice_axis cs)
      others c [] h = tt
      others c (d ∷ cs) h = (λ e. h.0 (sym e), others c cs h.1)

  pub fans_out-All :
      (P : Axis V → Type 0) (axes : List (Axis V)) → All P axes → All P (fans_out axes)
  unfolding fans_out
  fans_out-All P [] h = tt
  fans_out-All P (a ∷ more) h = elim (Bool-cases (ltb 0 (cardinality a))) [
    | inl big ↦ rw big (h.0, fans_out-All P more h.1)
    | inr small ↦ rw small (fans_out-All P more h.1)
  ]

  pub fans_out-Distinct : (axes : List (Axis V)) → Distinct axes → Distinct (fans_out axes)
  unfolding fans_out
  fans_out-Distinct [] h = tt
  fans_out-Distinct (a ∷ more) h = elim (Bool-cases (ltb 0 (cardinality a))) [
    | inl big ↦ rw big (fans_out-All _ more h.0, fans_out-Distinct more h.1)
    | inr small ↦ rw small (fans_out-Distinct more h.1)
  ]

  pub fans_out-IsNamed :
      (axes : List (Axis V)) → All (λ a. key_of a ≢ "") axes → All IsNamed (fans_out axes)
  unfolding fans_out
  fans_out-IsNamed [] h = tt
  fans_out-IsNamed (a ∷ more) h = elim (Bool-cases (ltb 0 (cardinality a))) [
    | inl big ↦ rw big ((h.0, ltb→lt 0 (cardinality a) big), fans_out-IsNamed more h.1)
    | inr small ↦ rw small (fans_out-IsNamed more h.1)
  ]

  pub All-append :
      (P : Axis V → Type 0) (axes more : List (Axis V))
      → All P axes
      → All P more
      → All P (axes ++ more)
  All-append P [] more h g = g
  All-append P (a ∷ axes) more (first, h) g = (first, All-append P axes more h g)

  pub Distinct-append :
      (xs ys : List (Axis V))
      → Distinct xs
      → Distinct ys
      → All (λ a. All (λ b. Apart b a) ys) xs
      → Distinct (xs ++ ys)
  Distinct-append [] ys hx hy apart = hy
  Distinct-append (x ∷ xs) ys hx hy apart =
      (All-append _ xs ys hx.0 apart.0, Distinct-append xs ys hx.1 hy apart.1)
