-- ===== src/Plan/Discovered.antt =====
-- internal/plan/enumerate.go and DiscoverTests of internal/star/runtime.go: the plan against the
-- tests of a run.
pub mod Groups
pub mod Accounts
use Prim.Native.Nat.{◌+◌}
use Prim.Native.String.{◌++◌ as str_append, slice, len}
use text.Mathlib.Text.{starts_with}
use text.Mathlib.TextEquality.{starts_with_iff}
use text.Mathlib.TextLemmas.{append_cancel_left}
use text.Mathlib.TextPositions.{starts_with-append, slice-append_right, len-append}
use mathlib.Core.Path.{subst}
use faultbox.Base.{
  ◌≡◌, refl, sym, ap, ◌∙◌, Bool, true, false, not, ◌&&◌, ◌||◌, List, [], ◌∷◌, ◌++◌, String, str_eq,
  eq_iff, eq_refl, if◌then◌else◌, arith, Bool-cases, inl, inr,
}
use faultbox.Base.Names.{has, keys, has-append}
use faultbox.Base.Sort.{insert_by, sort_by, sort_strings, names_of, has-sort_strings}
use faultbox.Plan.{PlanTest, FaultScenario, Loaded}
use faultbox.Plan.Build.{
  group_fault_scenarios, def_test_names, is_def_test, keep, trim_text, test_named, matrix_test,
  scenario_name_of, cell_tests, cell_names,
}
use faultbox.Plan.Enumerate.{
  Building, append_test, add_all, add_each, def_entry, config_entry, matrix_entry, cells_of,
  fault_scenario_entry, scenario_entry, test_name, gathered, build_tests, add_name, add_names,
  tests_named, scenario_tests, is_test, discover_tests,
}
use faultbox.Plan.Names.{unique, has-keep, has-names_of}
use faultbox.Plan.Entries.{
  no_tests, defs, configs, matrix_keys, free_keys, matrices, frees, scenarios, has-configs,
  build_tests-names,
}
use faultbox.Plan.Discovered.Groups.{Placed, placed_free, placed_cell, group_fault_scenarios-Placed}
use faultbox.Plan.Discovered.Accounts.{
  any_starts, any_starts-has, stands_for, accounts, accounts-sort_by, accounts-names, add_all-keeps,
  add_all-makes,
}

trimmed : (k : String) → starts_with k "test_" ≡ true → test_named (trim_text k "test_") ≡ k
trimmed k at =
    let (u, whole) = (starts_with_iff k "test_").0 at in
    let end : slice k (len "test_") (len k) ≡ u =
      ap (λ i. slice i (len "test_") (len i)) (sym whole)
      ∙ (ap (slice (str_append "test_" u) (len "test_")) (len-append "test_" u)
          ∙ slice-append_right "test_" u) in
    rw (at) (ap test_named end ∙ whole)

has-add_names :
    (k : String) (xs names : List String) → has k (add_names xs names) ≡ (has k names || has k xs)
unfolding has add_names
has-add_names k [] names = ground arith
has-add_names k (x ∷ xs) names = elim (Bool-cases (str_eq x k)) [
  | inl same ↦ ground (
    arith,
    same,
    ap (λ i. has i names) ((eq_iff x k).0 same),
    has-append k names (x ∷ []),
    has-add_names k xs (add_name x names),
  )
  | inr apart ↦
      ground (arith, apart, has-append k names (x ∷ []), has-add_names k xs (add_name x names))
]

has-cell_tests :
    (name : String) (cells : List FaultScenario)
    → has name (names_of scenario_name_of cells) ≡ true
    → has (test_named name) (cell_tests cells) ≡ true
unfolding has
has-cell_tests name [] h = absurd cc
has-cell_tests name (c ∷ cells) h = elim (Bool-cases (str_eq c.name name)) [
  | inl same ↦ ground (
    arith,
    eq_iff (test_named c.name) (test_named name),
    ap test_named ((eq_iff c.name name).0 same),
  )
  | inr apart ↦ ground (arith, has-cell_tests name cells (ground (arith, apart, h)))
]

-- A name behind "test_" that is tested is the test of a name.
scenario_tests-named :
    (k : String) (scenarios : List FaultScenario)
    → has k (scenario_tests scenarios) ≡ true
    → (name : String) × (test_named name ≡ k)
      × (has name (names_of scenario_name_of scenarios) ≡ true)
unfolding has
scenario_tests-named k [] h = absurd cc
scenario_tests-named k (fs ∷ more) h = elim (Bool-cases (str_eq (test_named fs.name) k)) [
  | inl same ↦ (fs.name, (eq_iff (test_named fs.name) k).0 same, ground (arith, eq_refl fs.name))
  | inr apart ↦
      let (name, at, there) = scenario_tests-named k more (ground (arith, apart, h)) in
      (name, at, ground (arith, there))
]

tests_named-names_of : (xs : List String) → tests_named xs ≡ names_of test_named xs
tests_named-names_of [] = refl
tests_named-names_of (x ∷ xs) = ap (λ ys. test_named x ∷ ys) (tests_named-names_of xs)

module _ (rt : Loaded) (u : unique rt.callable_names ≡ true)
    (no_defs : any_starts "test_matrix_" rt.callable_names ≡ false)
    (no_configs : any_starts "test_matrix_" (keys rt.test_configs) ≡ false) where
  abbrev listed : String → Bool
  listed k =
      has k (def_test_names rt)
      || (has k (keys rt.test_configs)
          || (has k (names_of matrix_test (matrix_keys rt))
              || (has k (names_of test_named (free_keys rt))
                  || has k (names_of test_named rt.scenarios))))

  listed-accounts : (k : String) → listed k ≡ true → accounts k (build_tests rt) ≡ true
  listed-accounts k h = accounts-names k (build_tests rt) (build_tests-names rt k u ∙ h)

  matrix_test-fresh : (s : String) → has (matrix_test s) (configs rt).seen ≡ false
  unfolding def_test_names is_def_test
  matrix_test-fresh s =
      let at : starts_with (matrix_test s) "test_matrix_" ≡ true =
        starts_with-append "test_matrix_" s in
      ground (
        arith,
        has-configs rt (matrix_test s),
        any_starts-has (matrix_test s) "test_matrix_" (keys rt.test_configs) no_configs at,
        any_starts-has (matrix_test s) "test_matrix_" rt.callable_names no_defs at,
        has-keep (matrix_test s) (is_def_test rt) rt.callable_names,
      )

  cell-accounts :
      (name s : String)
      → has s (matrix_keys rt) ≡ true
      → has name (names_of scenario_name_of (cells_of rt s)) ≡ true
      → accounts (test_named name) (build_tests rt) ≡ true
  unfolding build_tests gathered cell_names
  cell-accounts name s key cell =
      let k = test_named name in
      let stands : stands_for k (matrix_entry rt s) ≡ true = ground (
        arith,
        has-sort_strings k (cell_tests (cells_of rt s)),
        has-cell_tests name (cells_of rt s) cell,
      ) in
      let made : accounts k (matrices rt).tests ≡ true =
        add_all-makes (matrix_entry rt) k s (sort_strings (matrix_keys rt)) (configs rt)
          (λ y e. append_cancel_left "test_matrix_" y s e)
          (has-sort_strings s (matrix_keys rt) ∙ key) (matrix_test-fresh s) stands in
      accounts-sort_by k (gathered rt).tests
      ∙ add_all-keeps scenario_entry k (scenarios rt) (frees rt) (
          add_all-keeps (fault_scenario_entry rt) k (sort_strings (free_keys rt)) (matrices rt)
            made)

  accounts-Placed :
      (name : String)
      → Placed name (group_fault_scenarios rt.fault_scenarios)
      → accounts (test_named name) (build_tests rt) ≡ true
  accounts-Placed name (placed_free h) =
      listed-accounts (test_named name)
        (ground (arith, has-names_of name test_named (free_keys rt) h))
  accounts-Placed name (placed_cell s h) = cell-accounts name s h.0 h.1

  def-accounts :
      (k : String)
      → has k rt.callable_names ≡ true
      → starts_with k "test_" ≡ true
      → accounts k (build_tests rt) ≡ true
  unfolding def_test_names is_def_test
  def-accounts k member at =
      let name = trim_text k "test_" in
      let whole : test_named name ≡ k = trimmed k at in
      let kept = has-keep k (is_def_test rt) rt.callable_names in
      let own : starts_with k "test_matrix_" ≡ false =
        elim (Bool-cases (starts_with k "test_matrix_")) [
          | inl starts ↦ absurd (
              ground
                (arith, member, any_starts-has k "test_matrix_" rt.callable_names no_defs starts))
          | inr other ↦ other
        ] in
      listed-accounts k (elim (Bool-cases (has k (keys rt.test_configs))) [
        | inl config ↦ ground (arith, config)
        | inr no_config ↦ elim (Bool-cases (has name rt.scenarios)) [
          | inl scenario ↦
              let hit : has k (names_of test_named rt.scenarios) ≡ true =
                ap (λ i. has i (names_of test_named rt.scenarios)) (sym whole)
                ∙ has-names_of name test_named rt.scenarios scenario in
              ground (arith, hit)
          | inr no_scenario ↦ elim (Bool-cases (has name (free_keys rt))) [
            | inl free ↦
                let hit : has k (names_of test_named (free_keys rt)) ≡ true =
                  ap (λ i. has i (names_of test_named (free_keys rt))) (sym whole)
                  ∙ has-names_of name test_named (free_keys rt) free in
                ground (arith, hit)
            | inr no_free ↦ ground (arith, kept, member, at, own, no_config, no_scenario, no_free)
          ]
        ]
      ])

  has-discover_tests :
      (k : String)
      → has k (discover_tests rt) ≡ (
          ((has k rt.callable_names && starts_with k "test_") || has k (tests_named rt.scenarios))
          || has k (scenario_tests rt.fault_scenarios)
          || has k (keys rt.test_configs))
  unfolding discover_tests
  has-discover_tests k =
      let d = keep is_test rt.callable_names in
      let s = add_names (tests_named rt.scenarios) d in
      let f = add_names (scenario_tests rt.fault_scenarios) s in
      has-sort_strings k (add_names (keys rt.test_configs) f)
      ∙ ground (
        arith,
        has-add_names k (keys rt.test_configs) f,
        has-add_names k (scenario_tests rt.fault_scenarios) s,
        has-add_names k (tests_named rt.scenarios) d,
        has-keep k is_test rt.callable_names,
      )

  -- Where no two callables of the specification have one name, and neither a callable nor a test()
  -- configuration has a name that starts with "test_matrix_", every test that a run discovers is
  -- in the plan, by itself or as a cell of the test of its matrix.
  pub discover_tests-accounts :
      (k : String) → has k (discover_tests rt) ≡ true → accounts k (build_tests rt) ≡ true
  discover_tests-accounts k h = elim (Bool-cases (has k (keys rt.test_configs))) [
    | inl config ↦ listed-accounts k (ground (arith, config))
    | inr no_config ↦ elim (Bool-cases (has k (scenario_tests rt.fault_scenarios))) [
      | inl fault ↦
          let (name, at, there) = scenario_tests-named k rt.fault_scenarios fault in
          subst (λ i. accounts i (build_tests rt) ≡ true) at
            (accounts-Placed name (group_fault_scenarios-Placed name rt.fault_scenarios there))
      | inr no_fault ↦ elim (Bool-cases (has k (tests_named rt.scenarios))) [
        | inl scenario ↦
            let hit = ap (has k) (sym (tests_named-names_of rt.scenarios)) ∙ scenario in
            listed-accounts k (ground (arith, hit))
        | inr no_scenario ↦
            let found = sym (has-discover_tests k) ∙ h in
            def-accounts k (ground (arith, found, no_config, no_fault, no_scenario))
              (ground (arith, found, no_config, no_fault, no_scenario))
      ]
    ]
  ]
