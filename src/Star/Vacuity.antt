-- ===== src/Star/Vacuity.antt =====
-- internal/star/vacuity.go: the bookkeeping behind the diagnostic for interfaces that no test is
-- seen to succeed on. Sets of interfaces are lists without repetitions, and the counts of
-- assertions are natural numbers.
pub mod Refs
pub mod History
pub mod Tests
use Prim.Native.String.{compare}
use text.Mathlib.Text.{is_lt}
use faultbox.Base.{
  ℕ, ◌+◌, Bool, true, false, not, ◌&&◌, ◌||◌, Option, none, some, List, [], ◌∷◌, ◌++◌, String,
  str_eq, ltb, if◌then◌else◌,
}
use faultbox.Base.Dict.{Dict, lookup, insert}

pub record IfaceRef : Type 0 where
  pub service : String
  pub interface_name : String

abbrev pub same_ref : IfaceRef → IfaceRef → Bool
same_ref a b = str_eq a.service b.service && str_eq a.interface_name b.interface_name

unfoldable pub in_refs : IfaceRef → List IfaceRef → Bool
in_refs ref [] = false
in_refs ref (r ∷ refs) = same_ref r ref || in_refs ref refs

unfoldable pub add_ref : IfaceRef → List IfaceRef → List IfaceRef
unfolding in_refs
add_ref ref refs = if in_refs ref refs then refs else refs ++ ref ∷ []

pub record VacuityState : Type 0 where
  pub assertions : Dict ℕ
  pub stepped : List IfaceRef
  pub candidates : List IfaceRef
  pub positive_control : List IfaceRef

abbrev pub new_vacuity_state : VacuityState
new_vacuity_state = record { assertions = []; stepped = []; candidates = []; positive_control = [] }

abbrev pub count_or_zero : Option ℕ → ℕ
count_or_zero none = 0
count_or_zero (some n) = n

unfoldable pub assertion_count : String → VacuityState → ℕ
assertion_count test v = count_or_zero (lookup test v.assertions)

unfoldable pub note_assertion : String → VacuityState → VacuityState
unfolding assertion_count
note_assertion test v =
    if str_eq test ""
    then v
    else record v { assertions = insert test (assertion_count test v + 1) v.assertions }

unfoldable pub note_step : String → String → Bool → VacuityState → VacuityState
unfolding add_ref
note_step svc iface success v =
    let ref : IfaceRef = record { service = svc; interface_name = iface } in
    if str_eq svc "" then v else record v {
      stepped = add_ref ref v.stepped;
      candidates = if success then add_ref ref v.candidates else v.candidates;
    }

unfoldable pub add_all : List IfaceRef → List IfaceRef → List IfaceRef
unfolding add_ref
add_all [] refs = refs
add_all (ref ∷ more) refs = add_all more (add_ref ref refs)

unfoldable pub end_test : String → String → VacuityState → VacuityState
unfolding add_all assertion_count
end_test test result v =
    let confirming = str_eq result "pass" && ltb 0 (assertion_count test v) in
    record v {
      positive_control =
          if confirming then add_all v.candidates v.positive_control else v.positive_control;
      candidates = [];
    }

-- The order that `sort.Slice` is given.
abbrev pub ref_less : IfaceRef → IfaceRef → Bool
ref_less a b =
    if str_eq a.service b.service
    then is_lt (compare a.interface_name b.interface_name)
    else is_lt (compare a.service b.service)

unfoldable pub insert_sorted : IfaceRef → List IfaceRef → List IfaceRef
insert_sorted ref [] = ref ∷ []
insert_sorted ref (r ∷ refs) =
    let rest = insert_sorted ref refs in if ref_less r ref then r ∷ rest else ref ∷ r ∷ refs

unfoldable pub missing_from : List IfaceRef → List IfaceRef → List IfaceRef
unfolding insert_sorted in_refs
missing_from [] controls = []
missing_from (ref ∷ refs) controls =
    let rest = missing_from refs controls in
    if in_refs ref controls then rest else insert_sorted ref rest

unfoldable pub missing_positive_control : VacuityState → List IfaceRef
unfolding missing_from
missing_positive_control v = missing_from v.stepped v.positive_control
