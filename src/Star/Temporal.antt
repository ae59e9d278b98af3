-- ===== src/Star/Temporal.antt =====
-- internal/star/temporal.go and events.go (FirstMatching): the expectations eventually() and
-- always(). The event log is the list of its events, oldest first; a matcher is its test on one
-- event, and the Starlark predicate is what its call returns on a log. The text of a verdict is
-- kept as the reason it gives.
pub mod Liveness
pub mod Moments
pub mod Safety
pub mod Verdicts
pub mod Tests
use faultbox.Base.{
  Bool, true, false, not, ◌&&◌, ◌||◌, Option, none, some, List, [], ◌∷◌, String, str_eq,
  if◌then◌else◌,
}

pub data Verdict : Type 0 where
  pending_verdict pass_verdict fail_verdict : Verdict

pub data TerminationCause : Type 0 where
  natural terminate_when timeout immediate_fail : TerminationCause

-- What the call of the predicate gives: an error, or the truth of its value.
pub data CallResult : Type 0 where
  raised : String → CallResult
  value : Bool → CallResult

pub data Reason : Type 0 where
  no_reason violated_property never_satisfied still_pending no_end_anchor truncated : Reason
  predicate_raised raised_at_termination : String → Reason

module _ {Event : Type 0} where
  unfoldable pub first_matching : (Event → Bool) → List Event → Option Event
  first_matching m [] = none
  first_matching m (ev ∷ events) =
      let rest = first_matching m events in if m ev then some ev else rest

  abbrev pub found : Option Event → Bool
  found none = false
  found (some ev) = true

  unfoldable pub seen : (Event → Bool) → List Event → Bool
  unfolding first_matching
  seen m log = found (first_matching m log)

pub record Eventually (Event : Type 0) : Type 0 where
  pub predicate : List Event → CallResult
  pub anchor : Option (Event → Bool)
  pub satisfied : Bool
  pub anchor_reached : Bool

-- The anchor's part of `Evaluate`: whether it is passed, and remembered as passed.
abbrev pub anchor_passed : {Event : Type 0} → Option (Event → Bool) → Bool → List Event → Bool
anchor_passed none reached log = true
anchor_passed (some m) reached log = reached || seen m log

abbrev pub now_reached : {Event : Type 0} → Option (Event → Bool) → Bool → List Event → Bool
now_reached none reached log = reached
now_reached (some m) reached log = reached || seen m log

abbrev pub eventually_call :
    {Event : Type 0} → CallResult → Eventually Event → Eventually Event × Verdict × Reason
eventually_call (raised err) e = (e, fail_verdict, predicate_raised err)
eventually_call (value true) e = (record e { satisfied = true }, pass_verdict, no_reason)
eventually_call (value false) e = (e, pending_verdict, no_reason)

unfoldable pub eventually_evaluate :
    {Event : Type 0} → List Event → Eventually Event → Eventually Event × Verdict × Reason
eventually_evaluate log e =
    if e.satisfied
    then (e, pass_verdict, no_reason)
    else if anchor_passed e.anchor e.anchor_reached log
    then eventually_call (e.predicate log)
        (record e { anchor_reached = now_reached e.anchor e.anchor_reached log })
    else (e, pending_verdict, no_reason)

abbrev pub eventually_unsatisfied : TerminationCause → Verdict × Reason
eventually_unsatisfied terminate_when = (fail_verdict, never_satisfied)
eventually_unsatisfied immediate_fail = (fail_verdict, never_satisfied)
eventually_unsatisfied timeout = (pending_verdict, never_satisfied)
eventually_unsatisfied natural = (fail_verdict, never_satisfied)

-- Of the verdicts of `Evaluate`, only an error of the predicate is a failure.
abbrev pub eventually_final : Verdict × Reason → TerminationCause → Verdict × Reason
eventually_final (fail_verdict, predicate_raised err) cause =
    (fail_verdict, raised_at_termination err)
eventually_final (fail_verdict, why) cause = eventually_unsatisfied cause
eventually_final (pass_verdict, why) cause = (pass_verdict, no_reason)
eventually_final (pending_verdict, why) cause = eventually_unsatisfied cause

unfoldable pub eventually_finalize :
    {Event : Type 0}
    → List Event
    → TerminationCause
    → Eventually Event
    → Eventually Event × Verdict × Reason
unfolding eventually_evaluate
eventually_finalize log cause e =
    let (e', before, msg) = eventually_evaluate log e in
    let (verdict, why) = eventually_final (before, msg) cause in (e', verdict, why)

pub record BetweenAnchor (Event : Type 0) : Type 0 where
  pub name : String
  pub matcher : Option (Event → Bool)

pub record Always (Event : Type 0) : Type 0 where
  pub predicate : List Event → CallResult
  pub between_start : BetweenAnchor Event
  pub between_end : BetweenAnchor Event
  pub violated : Bool
  pub violation_msg : Reason
  pub window_started : Bool
  pub window_ended : Bool

abbrev pub is_some : {A : Type 0} → Option A → Bool
is_some none = false
is_some (some a) = true

unfoldable pub set_window_started : {Event : Type 0} → String → Always Event → Always Event
set_window_started anchor a =
    if str_eq a.between_start.name anchor then record a { window_started = true } else a

unfoldable pub set_window_ended : {Event : Type 0} → String → Always Event → Always Event
set_window_ended anchor a =
    if str_eq a.between_end.name anchor then record a { window_ended = true } else a

abbrev pub has_named_end_anchor : {Event : Type 0} → Always Event → Bool
has_named_end_anchor a = not (str_eq a.between_end.name "") && not (is_some a.between_end.matcher)

-- The `switch` that opens the window of an always() whose window is not open yet.
abbrev pub start_opens : {Event : Type 0} → Option (Event → Bool) → String → List Event → Bool
start_opens (some m) name log = seen m log
start_opens none name log = str_eq name "" || str_eq name "body_start"

abbrev pub end_seen : {Event : Type 0} → Option (Event → Bool) → List Event → Bool
end_seen none log = false
end_seen (some m) log = seen m log

abbrev pub always_call :
    {Event : Type 0} → CallResult → Always Event → Always Event × Verdict × Reason
always_call (raised err) a = (
  record a { violated = true; violation_msg = predicate_raised err },
  fail_verdict,
  predicate_raised err,
)
always_call (value false) a = (
  record a { violated = true; violation_msg = violated_property },
  fail_verdict,
  violated_property,
)
always_call (value true) a = (a, pending_verdict, no_reason)

-- `Evaluate` from the test of the window's end on, the window being open.
abbrev pub always_in_window :
    {Event : Type 0} → List Event → Always Event → Always Event × Verdict × Reason
always_in_window log a =
    if a.window_ended || end_seen a.between_end.matcher log
    then (record a { window_ended = true }, pass_verdict, no_reason)
    else always_call (a.predicate log) a

unfoldable pub always_evaluate :
    {Event : Type 0} → List Event → Always Event → Always Event × Verdict × Reason
always_evaluate log a =
    if a.violated
    then (a, fail_verdict, a.violation_msg)
    else if a.window_started || start_opens a.between_start.matcher a.between_start.name log
    then always_in_window log (record a { window_started = true })
    else (a, pending_verdict, no_reason)

abbrev pub end_pending : {Event : Type 0} → Always Event → Bool
end_pending a = not a.window_ended && (is_some a.between_end.matcher || has_named_end_anchor a)

abbrev pub unbounded : {Event : Type 0} → Always Event → Bool
unbounded a = not (is_some a.between_end.matcher) && str_eq a.between_end.name ""

-- The part of `Finalize` for a property that was not violated.
abbrev pub always_held : Bool → Bool → TerminationCause → Verdict × Reason
always_held true is_unbounded timeout = (pending_verdict, no_end_anchor)
always_held false true timeout = (pending_verdict, truncated)
always_held ends is_unbounded cause = (pass_verdict, no_reason)

abbrev pub always_final : Verdict × Reason → Bool → Bool → TerminationCause → Verdict × Reason
always_final (fail_verdict, msg) ends is_unbounded cause = (fail_verdict, msg)
always_final (verdict, msg) ends is_unbounded cause = always_held ends is_unbounded cause

unfoldable pub always_finalize :
    {Event : Type 0}
    → List Event
    → TerminationCause
    → Always Event
    → Always Event × Verdict × Reason
unfolding always_evaluate
always_finalize log cause a =
    let (a', before, msg) = always_evaluate log a in
    let (verdict, why) = always_final (before, msg) (end_pending a') (unbounded a') cause in
    (a', verdict, why)

unfoldable pub vacuous_window : {Event : Type 0} → Always Event → Bool
vacuous_window a =
    (is_some a.between_start.matcher
      || not (str_eq a.between_start.name "") && not (str_eq a.between_start.name "body_start"))
    && not a.window_started
    && not a.violated
