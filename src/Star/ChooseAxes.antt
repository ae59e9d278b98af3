-- ===== src/Star/ChooseAxes.antt =====
-- internal/star/chooseaxes.go: the choose() axes that are read off a test's body without running
-- it. Of the syntax tree, which is a library's, the calls of choose are kept, in the order in which
-- the walk meets them, and of an argument what the scanner tells apart. How fmt writes a number is
-- an argument. Go's `int` has 64 bits: a product is taken modulo 2 ^ 64, and from 2 ^ 63 on it is
-- negative.
pub mod Count
pub mod Covers
mod Tests
use faultbox.Base.{
  ℕ, zero, suc, ◌+◌, ◌*◌, ◌%◌, ◌^◌, Bool, true, false, not, ◌&&◌, ◌||◌, Option, none, some, List,
  [], ◌∷◌, String, leb, ◌==◌, length, if◌then◌else◌,
}
use Prim.Native.String.{◌++◌ as str_append}

-- What literalString tells apart: a literal that is a text, another literal, printed, an
-- identifier, and anything else.
pub data Atom : Type 0 where
  text_literal : String → Atom
  other_literal : String → Atom
  identifier : String → Atom
  expression : Atom

pub data Arg : Type 0 where
  atom : Atom → Arg
  list_literal : List Atom → Arg

pub record ChooseAxis : Type 0 where
  pub name : String
  pub values : List String
  pub known : Bool

unfoldable pub axis_cardinality : ChooseAxis → ℕ
axis_cardinality a = if not a.known || length a.values == 0 then 1 else length a.values

unfoldable pub literal_string : Atom → String
literal_string (text_literal s) = s
literal_string (other_literal s) = s
literal_string (identifier s) = s
literal_string expression = "<expr>"

abbrev pub literal_strings : List Atom → List String
literal_strings [] = []
literal_strings (a ∷ more) = literal_string a ∷ literal_strings more

unfoldable pub literal_options : Arg → List String × Bool
unfolding literal_string
literal_options (atom a) = ([], false)
literal_options (list_literal elements) = (literal_strings elements, true)

unfoldable pub string_literal : Arg → Option String
string_literal (atom (text_literal s)) = some s
string_literal (atom (other_literal s)) = none
string_literal (atom (identifier s)) = none
string_literal (atom expression) = none
string_literal (list_literal elements) = none

abbrev pub axis_named : String → Arg → ChooseAxis
axis_named name options = record {
  name = name;
  values = (literal_options options).0;
  known = (literal_options options).1;
}

module _ (decimal : ℕ → String) where
  abbrev pub placeholder : ℕ → String
  placeholder n = str_append "choose#" (decimal n)

  abbrev pub name_or : Option String → ℕ → String
  name_or none anon = placeholder (suc anon)
  name_or (some name) anon = name

  abbrev pub anon_after : Option String → ℕ → ℕ
  anon_after none anon = suc anon
  anon_after (some name) anon = anon

  -- The walk, with the number of axes that have had no name so far.
  unfoldable pub axes_in_calls : ℕ → List (List Arg) → List ChooseAxis
  unfolding literal_options string_literal
  axes_in_calls anon [] = []
  axes_in_calls anon ([] ∷ calls) = axes_in_calls anon calls
  axes_in_calls anon ((options ∷ []) ∷ calls) =
      axis_named (placeholder (suc anon)) options ∷ axes_in_calls (suc anon) calls
  axes_in_calls anon ((first ∷ options ∷ []) ∷ calls) =
      axis_named (name_or (string_literal first) anon) options
      ∷ axes_in_calls (anon_after (string_literal first) anon) calls
  axes_in_calls anon ((first ∷ second ∷ third ∷ rest) ∷ calls) = axes_in_calls anon calls

-- `n *= a.Cardinality()`
unfoldable pub multiply : ℕ → List ChooseAxis → ℕ
unfolding axis_cardinality
multiply n [] = n
multiply n (a ∷ axes) = multiply ((n * axis_cardinality a) % 2 ^ 64) axes

abbrev pub at_least_one : ℕ → ℕ
at_least_one n = if n == 0 || leb (2 ^ 63) n then 1 else n

unfoldable pub choose_leaf_count : List ChooseAxis → ℕ
unfolding multiply
choose_leaf_count axes = at_least_one (multiply 1 axes)

unfoldable pub choose_axes_complete : List ChooseAxis → Bool
choose_axes_complete [] = true
choose_axes_complete (a ∷ axes) = a.known && choose_axes_complete axes
