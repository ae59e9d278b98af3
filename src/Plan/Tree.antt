-- ===== src/Plan/Tree.antt =====
-- internal/plan/enumerate.go (Enumerate, buildTopology): the plan of a loaded specification.
use faultbox.Base.{ℕ, Bool, false, Option, none, some, List, [], ◌∷◌, String}
use faultbox.Base.Sort.{sort_strings, sort_by}
use faultbox.Plan.{PlanTest, PlanTotals, Loaded}
use faultbox.Plan.Enumerate.{build_tests, compute_totals}

pub record PlanDeterminism : Type 0 where
  pub level : String
  pub runtime : String
  pub strict : Bool
  pub explicit : Bool

pub record PlanService : Type 0 where
  pub name : String
  pub interfaces : List String

pub record PlanTree : Type 0 where
  pub schema_version : ℕ
  pub spec_path : String
  pub seed : Option ℕ
  pub determinism : PlanDeterminism
  pub tests : List PlanTest
  pub totals : PlanTotals
  pub services : List PlanService

-- What a runtime answers to Enumerate.
pub record Runtime : Type 0 where
  pub root_spec_path : String
  pub plan_seed : Option ℕ
  pub determinism : PlanDeterminism
  pub loaded : Loaded
  pub services : List PlanService

abbrev service_name : PlanService → String
service_name s = s.name

abbrev with_sorted_interfaces : List PlanService → List PlanService
with_sorted_interfaces [] = []
with_sorted_interfaces (s ∷ services) =
    record { name = s.name; interfaces = sort_strings s.interfaces }
    ∷ with_sorted_interfaces services

unfoldable pub build_topology : List PlanService → List PlanService
build_topology services = sort_by service_name (with_sorted_interfaces services)

abbrev blank_tree : PlanTree
blank_tree = record {
  schema_version = 1;
  spec_path = "";
  seed = none;
  determinism = record { level = ""; runtime = ""; strict = false; explicit = false };
  tests = [];
  totals = record { instances = 0; estimated = false };
  services = [];
}

unfoldable pub enumerate : Option Runtime → PlanTree
unfolding build_topology
enumerate none = blank_tree
enumerate (some rt) =
    let tests = build_tests rt.loaded in
    record blank_tree {
      spec_path = rt.root_spec_path;
      seed = rt.plan_seed;
      determinism = rt.determinism;
      tests = tests;
      totals = compute_totals tests;
      services = build_topology rt.services;
    }
