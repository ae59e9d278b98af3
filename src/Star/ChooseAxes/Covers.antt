-- ===== src/Star/ChooseAxes/Covers.antt =====
-- internal/star/choose.go (builtinChoose) and chooseaxes.go: the leaves that a run fans out to,
-- against the ones that are counted without running it. What the interpreter makes of an argument
-- is a parameter.
use native.Mathlib.Nat.{mul-le-mul}
use mathlib.Core.List.{append-nil}
use faultbox.Base.{
  ℕ, suc, ◌*◌, ◌^◌, ◌≤◌, ◌<◌, ◌≡◌, refl, sym, ap, ◌∙◌, Bool, true, false, ◌||◌, Option, none, some,
  List, [], ◌∷◌, map, String, str_eq, ltb, length, if◌then◌else◌, arith, Bool-cases, inl, inr,
  and-both,
}
use faultbox.Star.Leaf.{ChoiceVal, named_axes, collect_named_axes, seen_name}
use faultbox.Star.Expand.{
  Axis, choice_axis, cardinality, fans_out, collect_choices, expand_leaves, enumerate_leaves,
}
use faultbox.Star.Expand.Radix.{product}
use faultbox.Star.Expand.Cover.{length-expand_leaves}
use faultbox.Star.ChooseAxes.{
  Atom, Arg, atom, list_literal, axis_cardinality, axis_named, literal_strings, literal_options,
  string_literal, axes_in_calls, placeholder, name_or, anon_after, choose_leaf_count,
  choose_axes_complete,
}
use faultbox.Star.ChooseAxes.Count.{
  leaf_product, leaf_product-positive, axis_cardinality-positive, choose_leaf_count-product,
}

-- What an expression is at run time: a value, and where it is one, a text or a list.
pub record Interpreter (V : Type 0) : Type 0 where
  pub value_of : Atom → V
  pub text_of : Atom → Option String
  pub list_of : Atom → Option (List V)

-- A call of choose in a body, and whether the run comes to it.
pub record Site : Type 0 where
  pub args : List Arg
  pub reached : Bool

abbrev pub calls_of : List Site → List (List Arg)
calls_of [] = []
calls_of (s ∷ sites) = s.args ∷ calls_of sites

module _ {V : Type 0} (i : Interpreter V) where
  abbrev options_of : Arg → Option (List V)
  options_of (atom a) = i.list_of a
  options_of (list_literal elements) = some (map i.value_of elements)

  abbrev name_of : Arg → Option String
  name_of (atom a) = i.text_of a
  name_of (list_literal elements) = none

  abbrev choice : Option String → Option (List V) → Option (ChoiceVal V)
  choice none options = none
  choice (some name) none = none
  choice (some name) (some []) = none
  choice (some name) (some (v ∷ vs)) = some (record { name = name; options = v ∷ vs })

  -- The choice that a call records, `none` for an error.
  unfoldable pub builtin_choose : List Arg → Option (ChoiceVal V)
  builtin_choose [] = none
  builtin_choose (options ∷ []) = choice (some "") (options_of options)
  builtin_choose (first ∷ options ∷ []) = choice (name_of first) (options_of options)
  builtin_choose (first ∷ second ∷ third ∷ rest) = none

  abbrev then_recorded :
      Option (ChoiceVal V) → List (Option (ChoiceVal V)) → List (Option (ChoiceVal V))
  then_recorded none rest = []
  then_recorded (some c) rest = some c ∷ rest

  -- What a body records. An error ends it.
  unfoldable pub recorded : List Site → List (Option (ChoiceVal V))
  unfolding builtin_choose
  recorded [] = []
  recorded (s ∷ sites) =
      let rest = recorded sites in
      if s.reached then then_recorded (builtin_choose s.args) rest else rest

  abbrev fan_out : List String → List (Option (ChoiceVal V)) → ℕ
  fan_out seen cs = product (fans_out (map choice_axis (named_axes seen cs)))

  kept_axis :
      (c : ChoiceVal V) (more : List (Axis V))
      → (str_eq c.name "" || ltb (length c.options) 2) ≡ false
      → product (fans_out (choice_axis c ∷ more)) ≡ length c.options * product (fans_out more)
  unfolding fans_out cardinality
  kept_axis c more kept =
      let positive : ltb 0 (length c.options) ≡ true = ground (arith, kept) in
      rw (kept, positive) (rw (kept) refl)

  fan_out-cons :
      (c : ChoiceVal V) (cs : List (Option (ChoiceVal V))) (seen : List String) (k p : ℕ)
      → length c.options ≤ k
      → 1 ≤ k
      → ((names : List String) → fan_out names cs ≤ p)
      → fan_out seen (some c ∷ cs) ≤ k * p
  unfolding named_axes
  fan_out-cons c cs seen k p le positive rest =
      elim (Bool-cases (str_eq c.name "" || ltb (length c.options) 2)) [
        | inl skipped ↦ rw (skipped) (omega (arith, mul-le-mul positive (rest seen)))
        | inr kept ↦ elim (Bool-cases (seen_name c.name seen)) [
          | inl again ↦ rw (kept, again) (omega (arith, mul-le-mul positive (rest seen)))
          | inr fresh ↦
              let axis = kept_axis c (map choice_axis (named_axes (c.name ∷ seen) cs)) kept in
              rw (kept, fresh) (rw (axis) (mul-le-mul le (rest (c.name ∷ seen))))
        ]
      ]

  choice-fan_out :
      (o : Option (ChoiceVal V)) (cs : List (Option (ChoiceVal V))) (seen : List String) (k p : ℕ)
      → ((c : ChoiceVal V) → o ≡ some c → length c.options ≤ k)
      → 1 ≤ k
      → 1 ≤ p
      → ((names : List String) → fan_out names cs ≤ p)
      → fan_out seen (then_recorded o cs) ≤ k * p
  unfolding named_axes fans_out
  choice-fan_out none cs seen k p le positive above rest = omega (arith, mul-le-mul positive above)
  choice-fan_out (some c) cs seen k p le positive above rest =
      fan_out-cons c cs seen k p (le c refl) positive rest

  site-fan_out :
      (reached : Bool) (o : Option (ChoiceVal V)) (cs : List (Option (ChoiceVal V)))
      (seen : List String) (k p : ℕ)
      → ((c : ChoiceVal V) → o ≡ some c → length c.options ≤ k)
      → 1 ≤ k
      → 1 ≤ p
      → ((names : List String) → fan_out names cs ≤ p)
      → fan_out seen (if reached then then_recorded o cs else cs) ≤ k * p
  site-fan_out true o cs seen k p le positive above rest =
      choice-fan_out o cs seen k p le positive above rest
  site-fan_out false o cs seen k p le positive above rest =
      omega (arith, mul-le-mul positive (rest seen))

  length-literals : (es : List Atom) → length (map i.value_of es) ≡ length (literal_strings es)
  length-literals [] = refl
  length-literals (e ∷ es) = ap suc (length-literals es)

  abbrev options_in : Option (ChoiceVal V) → List V
  options_in none = []
  options_in (some c) = c.options

  choice-axis :
      (name : Option String) (title : String) (options : Arg) (c : ChoiceVal V)
      → (axis_named title options).known ≡ true
      → choice name (options_of options) ≡ some c
      → length c.options ≤ axis_cardinality (axis_named title options)
  unfolding literal_options axis_cardinality
  choice-axis name title (atom a) c known e = absurd cc
  choice-axis none title (list_literal es) c known e = absurd cc
  choice-axis (some name) title (list_literal []) c known e = absurd cc
  choice-axis (some name) title (list_literal (x ∷ es)) c known e =
      let same : c.options ≡ i.value_of x ∷ map i.value_of es = sym (ap options_in e) in
      ground (arith, ap length same, length-literals es)

  -- A body never fans out to more leaves than are counted, call by call.
  args-fan_out :
      (decimal : ℕ → String) (args : List Arg) (reached : Bool) (anon : ℕ) (sites : List Site)
      (seen : List String)
      → choose_axes_complete (axes_in_calls decimal anon (args ∷ calls_of sites)) ≡ true
      → ((n : ℕ) (names : List String)
          → choose_axes_complete (axes_in_calls decimal n (calls_of sites)) ≡ true
          → fan_out names (recorded sites)
            ≤ leaf_product (axes_in_calls decimal n (calls_of sites)))
      → fan_out seen
          (if reached then then_recorded (builtin_choose args) (recorded sites) else recorded sites)
        ≤ leaf_product (axes_in_calls decimal anon (args ∷ calls_of sites))
  unfolding axes_in_calls leaf_product builtin_choose choose_axes_complete
  args-fan_out decimal [] reached anon sites seen complete ih =
      let p = leaf_product (axes_in_calls decimal anon (calls_of sites)) in
      let h =
        site-fan_out reached none (recorded sites) seen 1 p (λ c e. absurd cc) (omega arith)
          (leaf_product-positive (axes_in_calls decimal anon (calls_of sites)))
          (λ names. ih anon names complete) in
      omega (arith, h)
  args-fan_out decimal (options ∷ []) reached anon sites seen complete ih =
      let axis = axis_named (placeholder decimal (suc anon)) options in
      let rest = axes_in_calls decimal (suc anon) (calls_of sites) in
      let both = and-both axis.known (choose_axes_complete rest) complete in
      site-fan_out reached (choice (some "") (options_of options)) (recorded sites) seen
        (axis_cardinality axis) (leaf_product rest)
        (λ c e. choice-axis (some "") (placeholder decimal (suc anon)) options c both.0 e)
        (axis_cardinality-positive axis) (leaf_product-positive rest)
        (λ names. ih (suc anon) names both.1)
  args-fan_out decimal (first ∷ options ∷ []) reached anon sites seen complete ih =
      let title = name_or decimal (string_literal first) anon in
      let axis = axis_named title options in
      let n = anon_after decimal (string_literal first) anon in
      let rest = axes_in_calls decimal n (calls_of sites) in
      let both = and-both axis.known (choose_axes_complete rest) complete in
      site-fan_out reached (choice (name_of first) (options_of options)) (recorded sites) seen
        (axis_cardinality axis) (leaf_product rest)
        (λ c e. choice-axis (name_of first) title options c both.0 e)
        (axis_cardinality-positive axis) (leaf_product-positive rest) (λ names. ih n names both.1)
  args-fan_out decimal (first ∷ second ∷ third ∷ more) reached anon sites seen complete ih =
      let p = leaf_product (axes_in_calls decimal anon (calls_of sites)) in
      let h =
        site-fan_out reached none (recorded sites) seen 1 p (λ c e. absurd cc) (omega arith)
          (leaf_product-positive (axes_in_calls decimal anon (calls_of sites)))
          (λ names. ih anon names complete) in
      omega (arith, h)

  recorded-fan_out :
      (decimal : ℕ → String) (sites : List Site) (anon : ℕ) (seen : List String)
      → choose_axes_complete (axes_in_calls decimal anon (calls_of sites)) ≡ true
      → fan_out seen (recorded sites) ≤ leaf_product (axes_in_calls decimal anon (calls_of sites))
  unfolding recorded axes_in_calls leaf_product named_axes fans_out
  recorded-fan_out decimal [] anon seen complete = omega arith
  recorded-fan_out decimal (s ∷ sites) anon seen complete =
      args-fan_out decimal s.args s.reached anon sites seen complete
        (λ n names h. recorded-fan_out decimal sites n names h)

  fan_out-leaves :
      (cs : List (Option (ChoiceVal V)))
      → fan_out [] cs < 2 ^ 63
      → length (enumerate_leaves (collect_named_axes cs) [] []) ≡ fan_out [] cs
  unfolding enumerate_leaves collect_choices collect_named_axes fans_out
  fan_out-leaves cs small =
      let axes = fans_out (map choice_axis (named_axes [] cs)) in
      ap (λ l. length (expand_leaves l)) (append-nil axes) ∙ length-expand_leaves axes small

  -- If every list of options in a body is a literal, and the product of the numbers of options is
  -- below 2 ^ 63, then whichever of its calls of choose a run comes to, each once and in their order,
  -- and wherever an error ends it, the choices that it records fan out to no more leaves than are
  -- counted without running it.
  pub choose_leaf_count-covers :
      (decimal : ℕ → String) (sites : List Site)
      → choose_axes_complete (axes_in_calls decimal 0 (calls_of sites)) ≡ true
      → leaf_product (axes_in_calls decimal 0 (calls_of sites)) < 2 ^ 63
      → length (enumerate_leaves (collect_named_axes (recorded sites)) [] [])
        ≤ choose_leaf_count (axes_in_calls decimal 0 (calls_of sites))
  choose_leaf_count-covers decimal sites complete small =
      let most = recorded-fan_out decimal sites 0 [] complete in
      omega (
        arith,
        fan_out-leaves (recorded sites) (omega (arith, most, small)),
        most,
        choose_leaf_count-product (axes_in_calls decimal 0 (calls_of sites)) small,
      )
