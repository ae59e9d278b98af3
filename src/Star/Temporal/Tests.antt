-- ===== src/Star/Temporal/Tests.antt =====
-- Runs of the temporal expectations, with numbers for events, and the theorems at concrete ones.
use faultbox.Base.{ℕ, ◌≡◌, ◌↔◌, refl, true, false, List, [], ◌∷◌, none, some, ◌==◌, ltb, length}
use faultbox.Star.Temporal.{
  CallResult, value, Eventually, Always, eventually_finalize, natural, fail_verdict,
  set_window_started, set_window_ended, no_reason, eventually_evaluate, always_evaluate, seen,
  first_matching,
}
use faultbox.Star.Temporal.Liveness.{SomeTime, holds, terminate_watch, terminate_watch_iff}
use faultbox.Star.Temporal.Moments.{
  Moment, logged, signalled, signal_lifecycle_anchor, always_watch,
}

abbrev two_or_more : List ℕ → CallResult
two_or_more log = value (ltb 1 (length log))

abbrev charged : Eventually ℕ
charged = record {
  predicate = two_or_more;
  anchor = some (λ ev. ev == 5);
  satisfied = false;
  anchor_reached = false;
}

abbrev between_five_and_nine : Always ℕ
between_five_and_nine = record {
  predicate = λ log. value (ltb (length log) 3);
  between_start = record { name = ""; matcher = some (λ ev. ev == 5) };
  between_end = record { name = ""; matcher = some (λ ev. ev == 9) };
  violated = false;
  violation_msg = no_reason;
  window_started = false;
  window_ended = false;
}

waits_for_the_anchor : (terminate_watch [] (1 ∷ 2 ∷ 3 ∷ []) charged false).1 ≡ false
unfolding terminate_watch eventually_evaluate seen first_matching
waits_for_the_anchor = refl

-- A registered eventually() does not keep what held for a while only: `Finalize` asks of the log at
-- the end.
abbrev exactly_two : Eventually ℕ
exactly_two = record charged { predicate = λ log. value (length log == 2); anchor = none }

transient_is_lost : (eventually_finalize (1 ∷ 2 ∷ 3 ∷ []) natural exactly_two).1 ≡ fail_verdict
unfolding eventually_finalize eventually_evaluate
transient_is_lost = refl

ends_before_the_violation :
    (always_watch []
      (logged 5 ∷ logged 9 ∷ logged 1 ∷ logged 1 ∷ [])
      between_five_and_nine).violated
    ≡ false
unfolding always_watch always_evaluate seen first_matching
ends_before_the_violation = refl

terminate_watch_iff_example :
    (terminate_watch [] (1 ∷ 5 ∷ []) charged false).1 ≡ true
    ↔ SomeTime (holds two_or_more (some (λ ev. ev == 5))) [] (1 ∷ 5 ∷ [])
terminate_watch_iff_example = terminate_watch_iff charged (1 ∷ 5 ∷ []) refl refl

-- between=("body_start", "stable")
abbrev until_stable : Always ℕ
until_stable = record between_five_and_nine {
  between_start = record { name = "body_start"; matcher = none };
  between_end = record { name = "stable"; matcher = none };
}

abbrev settles : List (Moment ℕ)
settles = signalled "body_start" ∷ logged 5 ∷ signalled "stable" ∷ logged 1 ∷ logged 1 ∷ []

nothing_after_stable : (always_watch [] settles until_stable).violated ≡ false
unfolding always_watch always_evaluate signal_lifecycle_anchor set_window_started set_window_ended
nothing_after_stable = refl

abbrev from_stable : Always ℕ
from_stable = record until_stable {
  between_start = record { name = "stable"; matcher = none };
  between_end = record { name = "body_end"; matcher = none };
}

opened_by_stable : (always_watch [] settles from_stable).violated ≡ true
unfolding always_watch always_evaluate signal_lifecycle_anchor set_window_started set_window_ended
opened_by_stable = refl
