-- ===== src/Star/ChooseAxes/Tests.antt =====
-- Tests of internal/star/chooseaxes.go: a body with a named, an anonymous and a malformed choose().
use faultbox.Base.{
  ℕ, zero, suc, ◌≡◌, ◌≤◌, refl, true, Option, none, some, List, [], ◌∷◌, String, length, arith,
}
use faultbox.Star.Leaf.{named_axes, collect_named_axes}
use faultbox.Star.Expand.{
  cardinality, fans_out, collect_choices, expand_leaves, enumerate_leaves, leaves_from,
  total_leaves, total_from,
}
use faultbox.Star.ChooseAxes.{
  Atom, text_literal, other_literal, identifier, expression, Arg, atom, list_literal, ChooseAxis,
  axis_cardinality, literal_string, literal_options, string_literal, axes_in_calls, multiply,
  choose_leaf_count, choose_axes_complete,
}
use faultbox.Star.ChooseAxes.Count.{leaf_product}
use faultbox.Star.ChooseAxes.Covers.{
  Interpreter, Site, calls_of, builtin_choose, recorded, choose_leaf_count-covers,
}

abbrev digit : ℕ → String
digit n = "1"

abbrev retries : List Arg
retries =
    atom (text_literal "retries") ∷ list_literal (other_literal "0" ∷ other_literal "3" ∷ []) ∷ []

abbrev anonymous : List Arg
anonymous = list_literal (text_literal "a" ∷ identifier "True" ∷ expression ∷ []) ∷ []

abbrev sites : List Site
sites =
    record { args = retries; reached = true }
    ∷ record { args = anonymous; reached = true }
    ∷ record { args = []; reached = true }
    ∷ []

axes :
    axes_in_calls digit 0 (calls_of sites)
    ≡ record { name = "retries"; values = "0" ∷ "3" ∷ []; known = true }
      ∷ record { name = "choose#1"; values = "a" ∷ "True" ∷ "<expr>" ∷ []; known = true }
      ∷ []
unfolding axes_in_calls literal_options literal_string string_literal
axes = refl

abbrev printed : Atom → String
printed (text_literal s) = s
printed (other_literal s) = s
printed (identifier s) = s
printed expression = ""

abbrev text : Atom → Option String
text (text_literal s) = some s
text (other_literal s) = none
text (identifier s) = none
text expression = none

abbrev no_list : Atom → Option (List String)
no_list a = none

abbrev literally : Interpreter String
literally = record { value_of = printed; text_of = text; list_of = no_list }

counted : choose_leaf_count (axes_in_calls digit 0 (calls_of sites)) ≡ 6
unfolding choose_leaf_count multiply axis_cardinality axes_in_calls literal_options string_literal
counted = refl

-- The anonymous choice does not fan out.
run_leaves : length (enumerate_leaves (collect_named_axes (recorded literally sites)) [] []) ≡ 2
unfolding enumerate_leaves collect_named_axes named_axes recorded builtin_choose collect_choices
    fans_out cardinality expand_leaves leaves_from total_leaves total_from
run_leaves = refl

choose_leaf_count-covers_example :
    length (enumerate_leaves (collect_named_axes (recorded literally sites)) [] [])
    ≤ choose_leaf_count (axes_in_calls digit 0 (calls_of sites))
unfolding axes_in_calls choose_axes_complete leaf_product axis_cardinality literal_options
    string_literal
choose_leaf_count-covers_example = choose_leaf_count-covers literally digit sites refl (omega arith)

-- 64 axes of two options.
abbrev coins : ℕ → List ChooseAxis
coins zero = []
coins (suc n) = record { name = "coin"; values = "0" ∷ "1" ∷ []; known = true } ∷ coins n

overflow : choose_leaf_count (coins 64) ≡ 1
unfolding choose_leaf_count multiply axis_cardinality
overflow = refl
