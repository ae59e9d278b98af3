-- ===== src/Plan.antt =====
-- internal/plan: the tree of the tests that a loaded specification will run, and the edges of the
-- topology that they fault. What the runtime holds once it has loaded is a record (Loaded); what a
-- range over one of its maps meets is a list, in whatever order.
pub mod Build
pub mod Enumerate
pub mod Tree
pub mod Names
pub mod Entries
pub mod Discovered
pub mod Coverage
mod Tests
use faultbox.Base.{ℕ, Bool, false, List, [], Option, none, String}
use faultbox.Base.Dict.{Dict}
use faultbox.Star.ChooseAxes.{ChooseAxis}

pub data PlanTestKind : Type 0 where
  kind_def kind_scenario kind_fault_scenario kind_fault_matrix kind_test_builtin : PlanTestKind

pub data PlanCompositionKind : Type 0 where
  composition_fault_matrix composition_choose : PlanCompositionKind

pub record PlanAxis : Type 0 where
  pub name : String
  pub values : List String
  pub estimated : Bool

pub record PlanComposition : Type 0 where
  pub kind : PlanCompositionKind
  pub axes : List PlanAxis

pub record PlanTest : Type 0 where
  pub name : String
  pub kind : PlanTestKind
  pub instances : ℕ
  pub compositions : List PlanComposition
  pub matrix_cells : List String
  pub faults : List String
  pub expect : Option String
  pub timeout : Option String
  pub estimated : Bool

pub record PlanTotals : Type 0 where
  pub instances : ℕ
  pub estimated : Bool

-- A test with what every kind of it leaves out.
abbrev pub bare_test : String → PlanTestKind → ℕ → PlanTest
bare_test name kind instances = record {
  name = name;
  kind = kind;
  instances = instances;
  compositions = [];
  matrix_cells = [];
  faults = [];
  expect = none;
  timeout = none;
  estimated = false;
}

-- The rules of a fault assumption: the services that its syscall rules and its proxy rules target,
-- where they have a target.
pub record FaultAssumption : Type 0 where
  pub name : String
  pub rules : List (Option String)
  pub proxy_rules : List (Option String)

pub record Matrix : Type 0 where
  pub scenario_name : String
  pub fault_name : String

pub record FaultScenario : Type 0 where
  pub name : String
  pub matrix : Option Matrix
  pub faults : List FaultAssumption
  pub expect : Option String

-- The timeout is the text of one that is positive.
pub record TestConfig : Type 0 where
  pub expect : Option String
  pub timeout : Option String

pub record Loaded : Type 0 where
  pub callable_names : List String
  pub scenarios : List String
  pub fault_scenarios : List FaultScenario
  pub test_configs : Dict TestConfig
  pub choose_axes : Dict (List ChooseAxis)
