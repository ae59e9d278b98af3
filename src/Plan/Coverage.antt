-- ===== src/Plan/Coverage.antt =====
-- internal/plan/coverage.go: which edges of the topology a test faults. The edges are what the
-- analysis of the specification (internal/generate) finds, and an argument.
pub mod Faulted
pub mod Protocols
use faultbox.Base.{
  ℕ, zero, suc, ◌+◌, Bool, true, false, not, ◌&&◌, ◌||◌, Option, none, some, List, [], ◌∷◌, ◌++◌,
  String, str_eq, length, if◌then◌else◌,
}
use faultbox.Base.Dict.{Dict, lookup, insert}
use faultbox.Base.Names.{has}
use faultbox.Base.Sort.{sort_strings}
use faultbox.Plan.{FaultAssumption, Matrix, FaultScenario}
use faultbox.Plan.Build.{test_named, matrix_test, or_empty}

-- An edge as the analysis gives it.
pub record Edge : Type 0 where
  pub from : String
  pub to : String
  pub protocol : String
  pub via : String

pub record PlanEdge : Type 0 where
  pub from : String
  pub to : String
  pub protocol : String
  pub via : String
  pub fault_tests : List String

pub record PlanCoverage : Type 0 where
  pub edges : List PlanEdge
  pub uncovered_edges : ℕ
  pub covered_protocols : List String
  pub uncovered_protocols : List String

abbrev pub append_unique : List String → String → List String
append_unique s v = if has v s then s else s ++ v ∷ []

abbrev pub covering_test : FaultScenario → Option Matrix → String
covering_test fs none = test_named fs.name
covering_test fs (some m) = matrix_test m.scenario_name

-- The tests by target so far, and the targets that have been seen in this assumption.
pub record Join : Type 0 where
  pub out : Dict (List String)
  pub seen : List String

abbrev pub join_target : String → Option String → Join → Join
join_target test none j = j
join_target test (some target) j = if has target j.seen then j else record {
  out = insert target (append_unique (or_empty (lookup target j.out)) test) j.out;
  seen = target ∷ j.seen;
}

-- The loops over the syscall rules and over the proxy rules are one.
unfoldable pub join_targets : String → List (Option String) → Join → Join
join_targets test [] j = j
join_targets test (t ∷ targets) j = join_targets test targets (join_target test t j)

unfoldable pub join_faults : String → List FaultAssumption → Dict (List String) → Dict (List String)
unfolding join_targets
join_faults test [] out = out
join_faults test (fa ∷ faults) out =
    join_faults test faults
      (join_targets test fa.proxy_rules
        (join_targets test fa.rules (record { out = out; seen = [] }))).out

unfoldable pub join_from : List FaultScenario → Dict (List String) → Dict (List String)
unfolding join_faults
join_from [] out = out
join_from (fs ∷ scenarios) out =
    join_from scenarios (join_faults (covering_test fs fs.matrix) fs.faults out)

unfoldable pub join_tests_to_target : List FaultScenario → Dict (List String)
unfolding join_from
join_tests_to_target scenarios = join_from scenarios []

abbrev pub plan_edge : Dict (List String) → Edge → PlanEdge
plan_edge tests e = record {
  from = e.from;
  to = e.to;
  protocol = e.protocol;
  via = e.via;
  fault_tests = sort_strings (or_empty (lookup e.to tests));
}

abbrev pub plan_edges : Dict (List String) → List Edge → List PlanEdge
plan_edges tests [] = []
plan_edges tests (e ∷ edges) = plan_edge tests e ∷ plan_edges tests edges

abbrev pub no_names : List String → Bool
no_names [] = true
no_names (x ∷ xs) = false

unfoldable pub count_uncovered : List PlanEdge → ℕ
count_uncovered [] = 0
count_uncovered (e ∷ edges) =
    let rest = count_uncovered edges in if no_names e.fault_tests then suc rest else rest

abbrev pub put_name : String → List String → List String
put_name k names = if has k names then names else names ++ k ∷ []

-- The protocols of the edges that satisfy the test, each once.
unfoldable pub protocols_of : (PlanEdge → Bool) → List PlanEdge → List String
protocols_of picked [] = []
protocols_of picked (e ∷ edges) =
    let rest = protocols_of picked edges in
    if str_eq e.protocol "" || not (picked e) then rest else put_name e.protocol rest

abbrev pub is_covered : PlanEdge → Bool
is_covered e = not (no_names e.fault_tests)

abbrev pub any_edge : PlanEdge → Bool
any_edge e = true

abbrev pub split_protocols : Bool → List String → List String → List String
split_protocols wanted covered [] = []
split_protocols wanted covered (p ∷ ps) =
    let rest = split_protocols wanted covered ps in
    if has p covered
    then (if wanted then p ∷ rest else rest)
    else (if wanted then rest else p ∷ rest)

unfoldable pub with_coverage : List FaultScenario → List Edge → PlanCoverage
unfolding join_tests_to_target count_uncovered protocols_of
with_coverage scenarios edges =
    let planned = plan_edges (join_tests_to_target scenarios) edges in
    let covered = protocols_of is_covered planned in
    let all = protocols_of any_edge planned in
    record {
      edges = planned;
      uncovered_edges = count_uncovered planned;
      covered_protocols = sort_strings (split_protocols true covered all);
      uncovered_protocols = sort_strings (split_protocols false covered all);
    }
