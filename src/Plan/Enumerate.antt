-- ===== src/Plan/Enumerate.antt =====
-- internal/plan/enumerate.go (buildTests, computeTotals), and DiscoverTests of
-- internal/star/runtime.go.
use faultbox.Base.{
  ◌+◌, Bool, false, ◌||◌, Option, none, some, List, [], ◌∷◌, ◌++◌, String, length, if◌then◌else◌,
}
use faultbox.Base.Dict.{lookup}
use faultbox.Base.Names.{has, keys}
use faultbox.Base.Sort.{sort_strings, sort_by}
use text.Mathlib.Text.{starts_with}
use faultbox.Plan.{
  kind_def, kind_scenario, kind_fault_scenario, kind_fault_matrix, kind_test_builtin, PlanTest,
  PlanTotals, bare_test, FaultScenario, TestConfig, Loaded,
}
use faultbox.Plan.Build.{
  group_fault_scenarios, def_test_names, apply_choose_axes, matrix_composition, matrix_expect_name,
  cell_names, fault_names, test_named, matrix_test, or_empty, keep,
}

-- The tests so far, and the names that have been seen.
pub record Building : Type 0 where
  pub seen : List String
  pub tests : List PlanTest

abbrev pub append_test : PlanTest → Building → Building
append_test t b = record { seen = b.seen ++ t.name ∷ []; tests = b.tests ++ t ∷ [] }

-- One of the four loops that skip a name that has been seen.
unfoldable pub add_all {ℓ} : {A : Type ℓ} → (A → PlanTest) → List A → Building → Building
add_all entry [] b = b
add_all entry (x ∷ xs) b =
    add_all entry xs (if has (entry x).name b.seen then b else append_test (entry x) b)

-- The loop over the defs skips none.
unfoldable pub add_each {ℓ} : {A : Type ℓ} → (A → PlanTest) → List A → Building → Building
add_each entry [] b = b
add_each entry (x ∷ xs) b = add_each entry xs (append_test (entry x) b)

abbrev pub def_entry : Loaded → String → PlanTest
def_entry rt name =
    apply_choose_axes (bare_test name kind_def 1) (or_empty (lookup name rt.choose_axes))

abbrev pub configured : PlanTest → Option TestConfig → PlanTest
configured t none = t
configured t (some cfg) = record t { expect = cfg.expect; timeout = cfg.timeout }

abbrev pub config_entry : Loaded → String → PlanTest
config_entry rt name = configured (bare_test name kind_test_builtin 1) (lookup name rt.test_configs)

abbrev pub cells_of : Loaded → String → List FaultScenario
cells_of rt name = or_empty (lookup name (group_fault_scenarios rt.fault_scenarios).cells_by_matrix)

abbrev pub matrix_entry : Loaded → String → PlanTest
matrix_entry rt name =
    let cells = cells_of rt name in
    record (bare_test (matrix_test name) kind_fault_matrix (length cells)) {
      compositions = matrix_composition name cells ∷ [];
      matrix_cells = cell_names cells;
      expect = matrix_expect_name cells;
    }

abbrev pub faulted : PlanTest → Option FaultScenario → PlanTest
faulted t none = t
faulted t (some fs) = record t { faults = fault_names fs.faults; expect = fs.expect }

abbrev pub fault_scenario_entry : Loaded → String → PlanTest
fault_scenario_entry rt name =
    faulted (bare_test (test_named name) kind_fault_scenario 1)
      (lookup name (group_fault_scenarios rt.fault_scenarios).free)

abbrev pub scenario_entry : String → PlanTest
scenario_entry name = bare_test (test_named name) kind_scenario 1

abbrev pub test_name : PlanTest → String
test_name t = t.name

-- The keys of a map of the names: each of them once.
unfoldable pub once : List String → List String
once [] = []
once (x ∷ xs) = let rest = once xs in if has x rest then rest else x ∷ rest

unfoldable pub gathered : Loaded → Building
unfolding add_all add_each once
gathered rt =
    let g = group_fault_scenarios rt.fault_scenarios in
    let defs =
      add_each (def_entry rt) (sort_strings (def_test_names rt))
        (record { seen = []; tests = [] }) in
    let configs = add_all (config_entry rt) (sort_strings (keys rt.test_configs)) defs in
    let matrices = add_all (matrix_entry rt) (sort_strings (keys g.cells_by_matrix)) configs in
    let frees = add_all (fault_scenario_entry rt) (sort_strings (keys g.free)) matrices in
    add_all scenario_entry (sort_strings (sort_strings (once rt.scenarios))) frees

unfoldable pub build_tests : Loaded → List PlanTest
unfolding gathered
build_tests rt = sort_by test_name (gathered rt).tests

-- The loop of computeTotals, with the totals so far.
unfoldable pub totals_from : PlanTotals → List PlanTest → PlanTotals
totals_from totals [] = totals
totals_from totals (t ∷ tests) =
    totals_from
      (record {
        instances = totals.instances + t.instances;
        estimated = totals.estimated || t.estimated;
      })
      tests

unfoldable pub compute_totals : List PlanTest → PlanTotals
unfolding totals_from
compute_totals tests = totals_from (record { instances = 0; estimated = false }) tests

-- The loops of DiscoverTests: a name that has been seen is skipped.
abbrev pub add_name : String → List String → List String
add_name name names = if has name names then names else names ++ name ∷ []

unfoldable pub add_names : List String → List String → List String
add_names [] names = names
add_names (x ∷ xs) names = add_names xs (add_name x names)

abbrev pub tests_named : List String → List String
tests_named [] = []
tests_named (x ∷ xs) = test_named x ∷ tests_named xs

abbrev pub scenario_tests : List FaultScenario → List String
scenario_tests [] = []
scenario_tests (fs ∷ more) = test_named fs.name ∷ scenario_tests more

abbrev pub is_test : String → Bool
is_test name = starts_with name "test_"

unfoldable pub discover_tests : Loaded → List String
unfolding add_names
discover_tests rt =
    let defs = keep is_test rt.callable_names in
    let scenarios = add_names (tests_named rt.scenarios) defs in
    let faults = add_names (scenario_tests rt.fault_scenarios) scenarios in
    sort_strings (add_names (keys rt.test_configs) faults)
