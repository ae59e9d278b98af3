-- ===== src/Star/Vacuity/Tests.antt =====
-- Tests of internal/star/vacuity.go: a suite that only sees a database fail, and one that also sees
-- it succeed, newest call first.
use faultbox.Base.{◌≡◌, refl, true, false, not, ◌&&◌, List, [], ◌∷◌}
use faultbox.Base.Dict.{lookup, insert}
use faultbox.Star.Vacuity.{
  IfaceRef, in_refs, add_ref, add_all, insert_sorted, missing_from, missing_positive_control,
  note_step, note_assertion, end_test, assertion_count,
}
use faultbox.Star.Vacuity.History.{
  SuiteCall, asserted_in, stepped_on, test_ended, after_calls, used, controlled,
  missing_positive_control_lem,
}

abbrev db : IfaceRef
db = record { service = "db"; interface_name = "main" }

abbrev only_failures : List SuiteCall
only_failures =
    test_ended "test_fault" "pass" ∷ asserted_in "test_fault" ∷ stepped_on "db" "main" false ∷ []

abbrev with_control : List SuiteCall
with_control =
    test_ended "test_query" "pass"
    ∷ asserted_in "test_query"
    ∷ stepped_on "db" "main" true
    ∷ only_failures

db_missing : missing_positive_control (after_calls only_failures) ≡ db ∷ []
unfolding missing_positive_control missing_from insert_sorted after_calls note_step note_assertion
    end_test assertion_count add_ref add_all in_refs lookup insert
db_missing = refl

db_controlled : missing_positive_control (after_calls with_control) ≡ []
unfolding missing_positive_control missing_from insert_sorted after_calls note_step note_assertion
    end_test assertion_count add_ref add_all in_refs lookup insert
db_controlled = refl

missing_positive_control_lem_example :
    in_refs db (missing_positive_control (after_calls only_failures))
    ≡ (used db only_failures && not (controlled db only_failures))
missing_positive_control_lem_example = missing_positive_control_lem db only_failures
