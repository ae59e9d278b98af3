-- ===== src/Plan/Tests.antt =====
-- Tests of internal/plan: a specification with two defs, a scenario, a fault scenario and a matrix.
use faultbox.Base.{◌≡◌, refl, true, not, ◌&&◌, ◌||◌, none, some, List, [], ◌∷◌, String}
use faultbox.Base.Dict.{lookup, insert}
use faultbox.Base.Names.{has, keys}
use faultbox.Base.Sort.{insert_by, sort_by, sort_strings, names_of}
use faultbox.Star.ChooseAxes.{axis_cardinality, multiply, choose_leaf_count, choose_axes_complete}
use faultbox.Plan.{FaultAssumption, FaultScenario, Loaded}
use faultbox.Plan.Build.{
  group_from, group_fault_scenarios, is_def_test, def_test_names, apply_choose_axes, test_named,
  matrix_test,
}
use faultbox.Plan.Enumerate.{
  add_all, add_each, once, gathered, test_name, build_tests, totals_from, compute_totals, add_names,
  discover_tests,
}
use faultbox.Plan.Names.{unique}
use faultbox.Plan.Entries.{matrix_keys, free_keys, build_tests-unique, build_tests-names}
use faultbox.Plan.Discovered.{discover_tests-accounts}
use faultbox.Plan.Discovered.Accounts.{any_starts, accounts}
use faultbox.Plan.Coverage.{
  Edge, join_tests_to_target, join_targets, join_faults, join_from, plan_edge, is_covered, any_edge,
  with_coverage,
}
use faultbox.Plan.Coverage.Faulted.{faulted_by, fault_tests-faulted_by}
use faultbox.Plan.Coverage.Protocols.{some_edge, with_coverage-protocols}

abbrev db_down : FaultAssumption
db_down = record { name = "db_down"; rules = some "db" ∷ none ∷ []; proxy_rules = [] }

abbrev slow_api : FaultAssumption
slow_api = record { name = "slow_api"; rules = []; proxy_rules = some "api" ∷ some "api" ∷ [] }

abbrev cell : String → String → FaultAssumption → FaultScenario
cell name fault fa = record {
  name = name;
  matrix = some (record { scenario_name = "flow"; fault_name = fault });
  faults = fa ∷ [];
  expect = some "no_crash";
}

abbrev spec : Loaded
spec = record {
  callable_names = "test_b" ∷ "flow" ∷ "test_a" ∷ [];
  scenarios = "flow" ∷ [];
  fault_scenarios =
      cell "matrix_flow_slow" "slow_api" slow_api
      ∷ record { name = "outage"; matrix = none; faults = db_down ∷ []; expect = none }
      ∷ cell "matrix_flow_down" "db_down" db_down
      ∷ [];
  test_configs = ("test_timed", record { expect = none; timeout = some "30s" }) ∷ [];
  choose_axes =
      ("test_a", record { name = "n"; values = "1" ∷ "2" ∷ "3" ∷ []; known = true } ∷ []) ∷ [];
}

names :
    names_of test_name (build_tests spec)
    ≡ "test_a" ∷ "test_b" ∷ "test_flow" ∷ "test_matrix_flow" ∷ "test_outage" ∷ "test_timed" ∷ []
unfolding build_tests gathered add_all add_each once def_test_names is_def_test
    group_fault_scenarios group_from sort_by insert_by sort_strings has lookup insert
    apply_choose_axes
names = refl

totals : (compute_totals (build_tests spec)).instances ≡ 9
unfolding compute_totals totals_from build_tests gathered add_all add_each once def_test_names
    is_def_test group_fault_scenarios group_from sort_by insert_by sort_strings has lookup insert
    apply_choose_axes choose_leaf_count multiply axis_cardinality choose_axes_complete
totals = refl

discovered :
    discover_tests spec
    ≡ "test_a" ∷ "test_b" ∷ "test_flow" ∷ "test_matrix_flow_down" ∷ "test_matrix_flow_slow"
      ∷ "test_outage" ∷ "test_timed" ∷ []
unfolding discover_tests add_names has sort_strings sort_by insert_by
discovered = refl

build_tests-unique_example : unique (names_of test_name (build_tests spec)) ≡ true
unfolding unique has
build_tests-unique_example = build_tests-unique spec refl

build_tests-names_example : has "test_outage" (names_of test_name (build_tests spec)) ≡ (
    has "test_outage" (def_test_names spec)
    || (has "test_outage" (keys spec.test_configs)
        || (has "test_outage" (names_of matrix_test (matrix_keys spec))
            || (has "test_outage" (names_of test_named (free_keys spec))
                || has "test_outage" (names_of test_named spec.scenarios)))))
unfolding unique has
build_tests-names_example = build_tests-names spec "test_outage" refl

discover_tests-accounts_example : accounts "test_matrix_flow_down" (build_tests spec) ≡ true
unfolding unique has any_starts discover_tests add_names sort_strings sort_by insert_by
discover_tests-accounts_example =
    discover_tests-accounts spec refl refl refl "test_matrix_flow_down" refl

-- A def whose name starts like that of a matrix is a test of the run, and not in the plan.
abbrev one_def : Loaded
one_def = record {
  callable_names = "test_matrix_inverse" ∷ [];
  scenarios = [];
  fault_scenarios = [];
  test_configs = [];
  choose_axes = [];
}

left_out : (discover_tests one_def ≡ "test_matrix_inverse" ∷ []) × (build_tests one_def ≡ [])
unfolding discover_tests add_names has sort_strings sort_by insert_by build_tests gathered add_all
    add_each once def_test_names is_def_test group_fault_scenarios group_from
left_out = (refl, refl)

abbrev edges : List Edge
edges =
    record { from = "api"; to = "db"; protocol = "postgres"; via = "env" }
    ∷ record { from = "web"; to = "api"; protocol = "http"; via = "depends_on" }
    ∷ record { from = "web"; to = "cache"; protocol = "redis"; via = "env" }
    ∷ []

fault_tests :
    (plan_edge
      (join_tests_to_target spec.fault_scenarios)
      (record { from = "api"; to = "db"; protocol = "postgres"; via = "env" })).fault_tests
    ≡ "test_matrix_flow" ∷ "test_outage" ∷ []
unfolding join_tests_to_target join_from join_faults join_targets has lookup insert sort_strings
    sort_by insert_by
fault_tests = refl

fault_tests-faulted_by_example :
    has "test_outage"
      (plan_edge
        (join_tests_to_target spec.fault_scenarios)
        (record { from = "api"; to = "db"; protocol = "postgres"; via = "env" })).fault_tests
    ≡ faulted_by "test_outage" "db" spec.fault_scenarios
fault_tests-faulted_by_example =
    fault_tests-faulted_by "test_outage" spec.fault_scenarios
      (record { from = "api"; to = "db"; protocol = "postgres"; via = "env" })

with_coverage-protocols_example :
    let c = with_coverage spec.fault_scenarios edges in
    (has "redis" c.covered_protocols ≡ some_edge "redis" is_covered c.edges)
    × (has "redis" c.uncovered_protocols
        ≡ (some_edge "redis" any_edge c.edges && not (some_edge "redis" is_covered c.edges)))
with_coverage-protocols_example = with_coverage-protocols spec.fault_scenarios edges "redis"
