-- ===== src/Plan/Build.antt =====
-- internal/plan/enumerate.go: the tests of the plan tree, and DiscoverTests of
-- internal/star/runtime.go, which names the tests of a run.
use faultbox.Base.{
  ◌*◌, Bool, false, not, ◌&&◌, ◌||◌, Option, none, some, List, [], ◌∷◌, ◌++◌, String, str_eq,
  if◌then◌else◌,
}
use faultbox.Base.Dict.{Dict, lookup, insert}
use faultbox.Base.Names.{has, keys}
use faultbox.Base.Sort.{sort_strings, sort_by, names_of}
use Prim.Native.String.{◌++◌ as str_append, slice, len}
use text.Mathlib.Text.{starts_with}
use faultbox.Star.ChooseAxes.{ChooseAxis, choose_leaf_count, choose_axes_complete}
use faultbox.Plan.{
  composition_fault_matrix, composition_choose, PlanAxis, PlanComposition, PlanTest,
  FaultAssumption, Matrix, FaultScenario, Loaded,
}

-- `strings.TrimPrefix`
abbrev pub trim_text : String → String → String
trim_text s prefix = if starts_with s prefix then slice s (len prefix) (len s) else s

abbrev pub test_named : String → String
test_named name = str_append "test_" name

abbrev pub matrix_test : String → String
matrix_test name = str_append "test_matrix_" name

abbrev pub scenario_name_of : FaultScenario → String
scenario_name_of fs = fs.name

abbrev pub or_empty {ℓ} : {A : Type ℓ} → Option (List A) → List A
or_empty none = []
or_empty (some xs) = xs

-- The cells of each matrix, and the scenarios of none.
pub record Groups : Type 0 where
  pub cells_by_matrix : Dict (List FaultScenario)
  pub free : Dict FaultScenario

abbrev pub group_one : FaultScenario → Option Matrix → Groups → Groups
group_one fs none g = record g { free = insert fs.name fs g.free }
group_one fs (some m) g = record g {
  cells_by_matrix =
      insert m.scenario_name (or_empty (lookup m.scenario_name g.cells_by_matrix) ++ fs ∷ [])
        g.cells_by_matrix;
}

unfoldable pub group_from : Groups → List FaultScenario → Groups
group_from g [] = g
group_from g (fs ∷ more) = group_from (group_one fs fs.matrix g) more

abbrev pub sorted_cells : Dict (List FaultScenario) → Dict (List FaultScenario)
sorted_cells [] = []
sorted_cells ((k, cells) ∷ more) = (k, sort_by scenario_name_of cells) ∷ sorted_cells more

unfoldable pub group_fault_scenarios : List FaultScenario → Groups
unfolding group_from
group_fault_scenarios scenarios =
    let g = group_from (record { cells_by_matrix = []; free = [] }) scenarios in
    record g { cells_by_matrix = sorted_cells g.cells_by_matrix }

unfoldable pub is_def_test : Loaded → String → Bool
is_def_test rt name =
    starts_with name "test_"
    && not (starts_with name "test_matrix_")
    && not (has name (keys rt.test_configs))
    && not (has (trim_text name "test_") rt.scenarios)
    && not (has (trim_text name "test_") (keys (group_fault_scenarios rt.fault_scenarios).free))

abbrev pub keep {ℓ} : {A : Type ℓ} → (A → Bool) → List A → List A
keep f [] = []
keep f (x ∷ xs) = let rest = keep f xs in if f x then x ∷ rest else rest

unfoldable pub def_test_names : Loaded → List String
unfolding is_def_test
def_test_names rt = keep (is_def_test rt) rt.callable_names

abbrev axis_of : ChooseAxis → PlanAxis
axis_of a = record { name = a.name; values = a.values; estimated = not a.known }

abbrev axes_of : List ChooseAxis → List PlanAxis
axes_of [] = []
axes_of (a ∷ axes) = axis_of a ∷ axes_of axes

unfoldable pub apply_choose_axes : PlanTest → List ChooseAxis → PlanTest
apply_choose_axes entry [] = entry
apply_choose_axes entry (a ∷ axes) = record entry {
  instances = entry.instances * choose_leaf_count (a ∷ axes);
  compositions =
      entry.compositions ++ record { kind = composition_choose; axes = axes_of (a ∷ axes) } ∷ [];
  estimated = entry.estimated || not (choose_axes_complete (a ∷ axes));
}

abbrev add_name : String → List String → List String
add_name k names = if has k names then names else k ∷ names

abbrev scenario_set : String → List FaultScenario → List String
scenario_set name [] = []
scenario_set name (c ∷ cells) = elim (c.matrix) [
  | none ↦ scenario_set name cells
  | some m ↦ add_name m.scenario_name (add_name name (scenario_set name cells))
]

abbrev fault_set : List FaultScenario → List String
fault_set [] = []
fault_set (c ∷ cells) = elim (c.matrix) [
  | none ↦ fault_set cells
  | some m ↦ add_name m.fault_name (fault_set cells)
]

unfoldable pub matrix_composition : String → List FaultScenario → PlanComposition
matrix_composition name cells = record {
  kind = composition_fault_matrix;
  axes =
      record {
        name = "scenarios";
        values = sort_strings (scenario_set name cells);
        estimated = false;
      }
      ∷ record { name = "faults"; values = sort_strings (fault_set cells); estimated = false }
      ∷ [];
}

-- The name that the cells share so far, and "(mixed)" once two of them disagree.
unfoldable pub expect_from : String → List FaultScenario → String
expect_from name [] = name
expect_from name (c ∷ cells) =
    let rest = λ (n : String). expect_from n cells in
    elim (c.expect) [
      | none ↦ rest name
      | some n ↦ if str_eq name "" then rest n else if str_eq name n then rest name else "(mixed)"
    ]

abbrev some_text : String → Option String
some_text s = if str_eq s "" then none else some s

unfoldable pub matrix_expect_name : List FaultScenario → Option String
unfolding expect_from
matrix_expect_name cells = some_text (expect_from "" cells)

abbrev pub cell_tests : List FaultScenario → List String
cell_tests [] = []
cell_tests (c ∷ cells) = test_named c.name ∷ cell_tests cells

unfoldable pub cell_names : List FaultScenario → List String
cell_names cells = sort_strings (cell_tests cells)

abbrev assumption_name : FaultAssumption → String
assumption_name f = f.name

unfoldable pub fault_names : List FaultAssumption → List String
fault_names faults = sort_strings (names_of assumption_name faults)
