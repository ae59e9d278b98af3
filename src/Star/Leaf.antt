-- ===== src/Star/Leaf.antt =====
-- internal/star/leaf.go, choose.go and the structs of interleavings.go: the axes that a discovery
-- run records, and the leaf of the plan tree that pins each of them. `*T` is `Option`, and a Go
-- `(value, ok)` is `Option` too. An empty map and a nil map are one.
use faultbox.Base.{
  ℕ, Bool, false, ◌||◌, List, [], ◌∷◌, ◌++◌, Option, none, some, String, str_eq, ltb, leb,
  if◌then◌else◌, length, get_elem?,
}
use faultbox.Base.Dict.{Dict, lookup}
use faultbox.Base.Int.{ℤ, pos, leb_ℤ}

pub record PlanLeaf : Type 0 where
  pub index : ℕ
  pub choices : Dict ℕ
  pub probability_outcomes : Dict (List Bool)
  pub is_discovery : Bool
  pub interleaving_ids : Dict ℕ

-- A key that a leaf never pins.
abbrev unless_empty {ℓ} : {A : Type ℓ} → String → Option A → Option A
unless_empty key found = if str_eq key "" then none else found

unfoldable pub option_index : Option PlanLeaf → String → Option ℕ
option_index none name = none
option_index (some l) name = unless_empty name (lookup name l.choices)

unfoldable pub interleaving_index : Option PlanLeaf → String → Option ℕ
interleaving_index none key = none
interleaving_index (some l) key = unless_empty key (lookup key l.interleaving_ids)

-- `occurrence < 0` is no case of a natural number.
unfoldable pub probability_fire : Option PlanLeaf → String → ℕ → Option Bool
probability_fire none key occurrence = none
probability_fire (some l) key occurrence =
    unless_empty key (elim (lookup key l.probability_outcomes) [
      | none ↦ none
      | some vec ↦ get_elem? vec occurrence
    ])

pub record ChoiceVal (V : Type 0) : Type 0 where
  pub name : String
  pub options : List V

-- `Prob` is only reported, and left out.
pub record ProbFaultSite : Type 0 where
  pub key : String
  pub max_fires : ℤ

pub data PolicyKind : Type 0 where
  single all critical first_n : PolicyKind
  unknown_kind : PolicyKind

pub record InterleavingPolicy : Type 0 where
  pub kind : PolicyKind
  pub n : ℕ

pub record ParallelSite : Type 0 where
  pub key : String
  pub branches : ℕ
  pub policy : InterleavingPolicy

abbrev pub seen_name : String → List String → Bool
seen_name name [] = false
seen_name name (s ∷ ss) = str_eq s name || seen_name name ss

module _ {V : Type 0} where
  -- `starlark.None` is `none`.
  unfoldable pub first_option : ChoiceVal V → Option V
  first_option c = get_elem? c.options 0

  unfoldable pub selected : ChoiceVal V → Option PlanLeaf → Option V
  unfolding first_option
  selected c leaf = elim (option_index leaf c.name) [
    | none ↦ first_option c
    | some i ↦ if leb (length c.options) i then first_option c else get_elem? c.options i
  ]

  -- The loop of `collectNamedAxes`, with the names that it has seen.
  unfoldable pub named_axes : List String → List (Option (ChoiceVal V)) → List (ChoiceVal V)
  named_axes seen [] = []
  named_axes seen (none ∷ cs) = named_axes seen cs
  named_axes seen (some c ∷ cs) =
      let skipped = named_axes seen cs in
      let kept = c ∷ named_axes (c.name ∷ seen) cs in
      if str_eq c.name "" || ltb (length c.options) 2
      then skipped
      else if seen_name c.name seen
      then skipped
      else kept

  unfoldable pub collect_named_axes : List (Option (ChoiceVal V)) → List (ChoiceVal V)
  unfolding named_axes
  collect_named_axes cs = named_axes [] cs

-- `recordProbFault`: the sites recorded so far, with one more if it is new.
abbrev pub has_prob_key : String → List ProbFaultSite → Bool
has_prob_key k [] = false
has_prob_key k (s ∷ ss) = str_eq s.key k || has_prob_key k ss

unfoldable pub record_prob_fault : List ProbFaultSite → ProbFaultSite → List ProbFaultSite
record_prob_fault sites site =
    if str_eq site.key "" || leb_ℤ site.max_fires (pos 0)
    then sites
    else if has_prob_key site.key sites
    then sites
    else sites ++ site ∷ []

abbrev pub has_site_key : String → List ParallelSite → Bool
has_site_key k [] = false
has_site_key k (s ∷ ss) = str_eq s.key k || has_site_key k ss

-- `recordParallelSite`
unfoldable pub record_parallel_site : List ParallelSite → ParallelSite → List ParallelSite
record_parallel_site sites site =
    if str_eq site.key "" || ltb site.branches 2
    then sites
    else if has_site_key site.key sites
    then sites
    else sites ++ site ∷ []
