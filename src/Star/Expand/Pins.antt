-- ===== src/Star/Expand/Pins.antt =====
-- internal/star/nondet.go and leaf.go: what a leaf says of an axis: the digit that the readers of
-- the leaf (`optionIndex`, `ProbabilityFire`, `InterleavingIndex`) give back.
use faultbox.Base.{
  ℕ, zero, suc, ◌/◌, ◌%◌, ◌<◌, ◌≡◌, ◌≢◌, refl, ◌∙◌, false, List, [], ◌∷◌, some, arith, All, String,
  eq_iff, get_elem?,
}
use faultbox.Base.Dict.{lookup-insert_self, lookup-insert_ne}
use faultbox.Base.Int.{ℤ, pos, negsuc, leb_ℤ}
use faultbox.Star.Leaf.{PlanLeaf, option_index, interleaving_index, probability_fire}
use faultbox.Star.Expand.{
  Axis, choice_axis, prob_axis, par_axis, cardinality, prob_cardinality, apply, bits_for, stamp,
}
use faultbox.Star.Expand.Radix.{FansOut, digits}

max_fires_positive : (k : ℤ) → 0 < prob_cardinality k → leb_ℤ k (pos 0) ≡ false
unfolding prob_cardinality
max_fires_positive (negsuc k) h = absurd (omega arith)
max_fires_positive (pos zero) h = absurd (omega arith)
max_fires_positive (pos (suc k)) h = ground arith

module _ {V : Type 0} where
  abbrev pub key_of : Axis V → String
  key_of (choice_axis c) = c.name
  key_of (prob_axis p) = p.key
  key_of (par_axis s) = s.key

  abbrev pub IsNamed : Axis V → Type 0
  IsNamed a = (key_of a ≢ "") × FansOut a

  -- Two axes of one kind have two keys.
  abbrev pub Apart : Axis V → Axis V → Type 0
  Apart (choice_axis c) (choice_axis d) = c.name ≢ d.name
  Apart (prob_axis p) (prob_axis q) = p.key ≢ q.key
  Apart (par_axis s) (par_axis t) = s.key ≢ t.key
  Apart _ _ = Unit

  abbrev pub Distinct : List (Axis V) → Type 0
  Distinct [] = Unit
  Distinct (a ∷ more) = All (λ b. Apart b a) more × Distinct more

  abbrev pub Pinned : Axis V → ℕ → PlanLeaf → Type 0
  Pinned (choice_axis c) d leaf = option_index (some leaf) c.name ≡ some d
  Pinned (prob_axis p) d leaf =
      (k : ℕ) → probability_fire (some leaf) p.key k ≡ get_elem? (bits_for p.max_fires d) k
  Pinned (par_axis s) d leaf = interleaving_index (some leaf) s.key ≡ some d

  abbrev pub AllPinned : List (Axis V) → List ℕ → PlanLeaf → Type 0
  AllPinned [] [] leaf = Unit
  AllPinned (a ∷ more) (d ∷ ds) leaf = Pinned a d leaf × AllPinned more ds leaf
  AllPinned _ _ leaf = ⊥

  apply-Pinned : (a : Axis V) (d : ℕ) (leaf : PlanLeaf) → IsNamed a → Pinned a d (apply a d leaf)
  unfolding apply option_index interleaving_index probability_fire cardinality
  apply-Pinned (choice_axis c) d leaf h =
      ground (arith, eq_iff c.name "", lookup-insert_self c.name d leaf.choices)
  apply-Pinned (prob_axis p) d leaf h = λ k. ground (
    arith,
    eq_iff p.key "",
    max_fires_positive p.max_fires h.1,
    lookup-insert_self p.key (bits_for p.max_fires d) leaf.probability_outcomes,
  )
  apply-Pinned (par_axis s) d leaf h =
      ground (arith, eq_iff s.key "", lookup-insert_self s.key d leaf.interleaving_ids)

  -- Another axis leaves the pin as it is.
  apply-keeps :
      (a b : Axis V) (d e : ℕ) (leaf : PlanLeaf)
      → Apart a b
      → Pinned b d leaf
      → Pinned b d (apply a e leaf)
  unfolding apply option_index interleaving_index probability_fire
  apply-keeps (choice_axis c) (choice_axis c') d e leaf apart h =
      ground (arith, lookup-insert_ne c.name c'.name e leaf.choices apart)
  apply-keeps (choice_axis c) (prob_axis q) d e leaf apart h = λ k. ground (arith, h k)
  apply-keeps (choice_axis c) (par_axis t) d e leaf apart h = ground arith
  apply-keeps (prob_axis p) (choice_axis c') d e leaf apart h = ground arith
  apply-keeps (prob_axis p) (prob_axis q) d e leaf apart h = λ k. ground (
    arith,
    h k,
    lookup-insert_ne p.key q.key (bits_for p.max_fires e) leaf.probability_outcomes apart,
  )
  apply-keeps (prob_axis p) (par_axis t) d e leaf apart h = ground arith
  apply-keeps (par_axis s) (choice_axis c') d e leaf apart h = ground arith
  apply-keeps (par_axis s) (prob_axis q) d e leaf apart h = λ k. ground (arith, h k)
  apply-keeps (par_axis s) (par_axis t) d e leaf apart h =
      ground (arith, lookup-insert_ne s.key t.key e leaf.interleaving_ids apart)

  stamp-keeps :
      (b : Axis V) (d : ℕ) (more : List (Axis V)) (rem : ℕ) (leaf : PlanLeaf)
      → All (λ a. Apart a b) more
      → Pinned b d leaf
      → Pinned b d (stamp more rem leaf)
  unfolding stamp
  stamp-keeps b d [] rem leaf apart h = h
  stamp-keeps b d (a ∷ more) rem leaf apart h =
      stamp-keeps b d more _ (apply a (rem % cardinality a) leaf) apart.1
        (apply-keeps a b d (rem % cardinality a) leaf apart.0 h)

  -- The leaf that `stamp` makes for an index pins every axis to its digit of the index.
  pub stamp-AllPinned :
      (axes : List (Axis V)) (rem : ℕ) (leaf : PlanLeaf)
      → All IsNamed axes
      → Distinct axes
      → AllPinned axes (digits axes rem) (stamp axes rem leaf)
  unfolding stamp
  stamp-AllPinned [] rem leaf named apart = tt
  stamp-AllPinned (a ∷ more) rem leaf named apart =
      let digit = rem % cardinality a in
      let stamped = apply a digit leaf in
      (
        stamp-keeps a digit more (rem / cardinality a) stamped apart.0
            (apply-Pinned a digit leaf named.0),
        stamp-AllPinned more (rem / cardinality a) stamped named.1 apart.1,
      )

  apply-index : (a : Axis V) (d : ℕ) (leaf : PlanLeaf) → (apply a d leaf).index ≡ leaf.index
  unfolding apply
  apply-index (choice_axis c) d leaf = ground arith
  apply-index (prob_axis p) d leaf = ground arith
  apply-index (par_axis s) d leaf = ground arith

  pub stamp-index :
      (axes : List (Axis V)) (rem : ℕ) (leaf : PlanLeaf) → (stamp axes rem leaf).index ≡ leaf.index
  unfolding stamp
  stamp-index [] rem leaf = refl
  stamp-index (a ∷ more) rem leaf =
      stamp-index more (rem / cardinality a) (apply a (rem % cardinality a) leaf)
      ∙ apply-index a (rem % cardinality a) leaf
