-- ===== src/Plan/Entries.antt =====
-- internal/plan/enumerate.go (buildTests): which tests are in the plan.
use faultbox.Base.{◌≡◌, refl, sym, ap, ◌∙◌, true, ◌||◌, List, [], String, arith}
use faultbox.Base.Names.{has, keys}
use faultbox.Base.Dict.{lookup}
use faultbox.Base.Sort.{
  sort_strings, names_of, itself, names_of-itself, has-sort_by, has-sort_strings,
  has-names_of-sort_strings,
}
use faultbox.Plan.{Loaded, bare_test, kind_def, kind_test_builtin, kind_fault_scenario}
use faultbox.Plan.Build.{
  group_fault_scenarios, def_test_names, is_def_test, test_named, matrix_test, or_empty,
}
use faultbox.Plan.Enumerate.{
  Building, add_all, add_each, def_entry, config_entry, matrix_entry, fault_scenario_entry,
  scenario_entry, test_name, once, gathered, build_tests,
}
use faultbox.Plan.Names.{
  unique, unique-sort_by, Sound, entry_name, add_all-Sound, has-add_all, add_each-Sound,
  has-add_each, name-configured, name-faulted, name-apply_choose_axes, names_of-same, unique-keep,
  unique-sort_strings, has-once,
}

module _ (rt : Loaded) where
  abbrev pub no_tests : Building
  no_tests = record { seen = []; tests = [] }

  abbrev pub defs : Building
  defs = add_each (def_entry rt) (sort_strings (def_test_names rt)) no_tests

  abbrev pub configs : Building
  configs = add_all (config_entry rt) (sort_strings (keys rt.test_configs)) defs

  abbrev pub matrix_keys : List String
  matrix_keys = keys (group_fault_scenarios rt.fault_scenarios).cells_by_matrix

  abbrev pub free_keys : List String
  free_keys = keys (group_fault_scenarios rt.fault_scenarios).free

  abbrev pub matrices : Building
  matrices = add_all (matrix_entry rt) (sort_strings matrix_keys) configs

  abbrev pub frees : Building
  frees = add_all (fault_scenario_entry rt) (sort_strings free_keys) matrices

  abbrev pub scenarios : List String
  scenarios = sort_strings (sort_strings (once rt.scenarios))

  def-names : (xs : List String) → names_of (entry_name (def_entry rt)) xs ≡ xs
  def-names xs =
      names_of-same (entry_name (def_entry rt)) itself xs
        (λ x. name-apply_choose_axes (bare_test x kind_def 1) (or_empty (lookup x rt.choose_axes)))
      ∙ names_of-itself xs

  config-names : (xs : List String) → names_of (entry_name (config_entry rt)) xs ≡ xs
  config-names xs =
      names_of-same (entry_name (config_entry rt)) itself xs
        (λ x. name-configured (bare_test x kind_test_builtin 1) (lookup x rt.test_configs))
      ∙ names_of-itself xs

  free-names :
      (xs : List String)
      → names_of (entry_name (fault_scenario_entry rt)) xs ≡ names_of test_named xs
  free-names xs = names_of-same (entry_name (fault_scenario_entry rt)) test_named xs (λ x.
      name-faulted (bare_test (test_named x) kind_fault_scenario 1)
        (lookup x (group_fault_scenarios rt.fault_scenarios).free))

  gathered-Sound : unique rt.callable_names ≡ true → Sound (gathered rt)
  unfolding gathered def_test_names
  gathered-Sound u =
      let names : unique (names_of (entry_name (def_entry rt)) (sort_strings (def_test_names rt)))
          ≡ true =
        ap unique (def-names (sort_strings (def_test_names rt)))
        ∙ (unique-sort_strings (def_test_names rt)
            ∙ unique-keep (is_def_test rt) rt.callable_names u) in
      add_all-Sound scenario_entry scenarios frees (
        add_all-Sound (fault_scenario_entry rt) (sort_strings free_keys) matrices (
          add_all-Sound (matrix_entry rt) (sort_strings matrix_keys) configs (
            add_all-Sound (config_entry rt) (sort_strings (keys rt.test_configs)) defs (
              add_each-Sound (def_entry rt) (sort_strings (def_test_names rt)) no_tests refl
                names))))

  -- No two tests of the plan have one name, where no two callables of the specification have.
  pub build_tests-unique :
      unique rt.callable_names ≡ true → unique (names_of test_name (build_tests rt)) ≡ true
  unfolding build_tests
  build_tests-unique u =
      let sound = gathered-Sound u in
      unique-sort_by test_name (gathered rt).tests
      ∙ (ap unique (sym sound.seen_names) ∙ sound.unique_names)

  pub has-configs :
      (k : String)
      → has k configs.seen ≡ (has k (def_test_names rt) || has k (keys rt.test_configs))
  unfolding has
  has-configs k =
      let d : has k defs.seen ≡ has k (def_test_names rt) =
        has-add_each (def_entry rt) k (sort_strings (def_test_names rt)) no_tests
        ∙ (ap (has k) (def-names (sort_strings (def_test_names rt)))
            ∙ has-sort_strings k (def_test_names rt)) in
      let c : has k configs.seen ≡ (has k defs.seen || has k (keys rt.test_configs)) =
        has-add_all (config_entry rt) k (sort_strings (keys rt.test_configs)) defs
        ∙ ap (λ b. has k defs.seen || b)
            (ap (has k) (config-names (sort_strings (keys rt.test_configs)))
              ∙ has-sort_strings k (keys rt.test_configs)) in
      c ∙ ap (λ b. b || has k (keys rt.test_configs)) d

  has-gathered :
      (k : String)
      → has k (gathered rt).seen ≡ (
          has k (def_test_names rt)
          || (has k (keys rt.test_configs)
              || (has k (names_of matrix_test matrix_keys)
                  || (has k (names_of test_named free_keys)
                      || has k (names_of test_named rt.scenarios)))))
  unfolding gathered has
  has-gathered k =
      let c = has-configs k in
      let m : has k matrices.seen
          ≡ (has k configs.seen || has k (names_of matrix_test matrix_keys)) =
        has-add_all (matrix_entry rt) k (sort_strings matrix_keys) configs
        ∙ ap (λ b. has k configs.seen || b) (has-names_of-sort_strings k matrix_test matrix_keys) in
      let f : has k frees.seen ≡ (has k matrices.seen || has k (names_of test_named free_keys)) =
        has-add_all (fault_scenario_entry rt) k (sort_strings free_keys) matrices
        ∙ ap (λ b. has k matrices.seen || b)
            (ap (has k) (free-names (sort_strings free_keys))
              ∙ has-names_of-sort_strings k test_named free_keys) in
      let s : has k (gathered rt).seen
          ≡ (has k frees.seen || has k (names_of test_named rt.scenarios)) =
        has-add_all scenario_entry k scenarios frees
        ∙ ap (λ b. has k frees.seen || b)
            (has-names_of-sort_strings k test_named (sort_strings (once rt.scenarios))
              ∙ (has-names_of-sort_strings k test_named (once rt.scenarios)
                  ∙ has-once k test_named rt.scenarios)) in
      s ∙ ground (arith, c, m, f)

  -- Where no two callables of the specification have one name, the names in the plan are those of
  -- the def tests, of the test() configurations, of one test for each matrix, of the fault
  -- scenarios of no matrix, and of the registered scenarios.
  pub build_tests-names :
      (k : String)
      → unique rt.callable_names ≡ true
      → has k (names_of test_name (build_tests rt)) ≡ (
          has k (def_test_names rt)
          || (has k (keys rt.test_configs)
              || (has k (names_of matrix_test matrix_keys)
                  || (has k (names_of test_named free_keys)
                      || has k (names_of test_named rt.scenarios)))))
  unfolding build_tests
  build_tests-names k u =
      has-sort_by k test_name test_name (gathered rt).tests
      ∙ (ap (has k) (sym (gathered-Sound u).seen_names) ∙ has-gathered k)
