-- ===== src/Star/Temporal/Verdicts.antt =====
-- internal/star/temporal.go: what the final verdict says, by the cause that ended the test.
use faultbox.Base.{◌≡◌, ◌↔◌, true, false, List, arith}
use faultbox.Star.Temporal.{
  pending_verdict, pass_verdict, TerminationCause, timeout, Eventually, Always, eventually_evaluate,
  eventually_finalize, always_evaluate, always_finalize,
}

module _ {Event : Type 0} where
  -- Whatever ended the test, an eventually() passes exactly if it is satisfied, at the latest by
  -- the evaluation that the end itself makes.
  pub eventually_finalize-pass :
      (log : List Event) (cause : TerminationCause) (e : Eventually Event)
      → (eventually_finalize log cause e).1 ≡ pass_verdict
        ↔ (eventually_finalize log cause e).0.satisfied ≡ true
  unfolding eventually_finalize eventually_evaluate
  eventually_finalize-pass log cause e = (λ h. ground arith, λ h. ground arith)

  -- An eventually() is left undecided only when the time ran out, and then it is not satisfied.
  pub eventually_finalize-pending :
      (log : List Event) (cause : TerminationCause) (e : Eventually Event)
      → (eventually_finalize log cause e).1 ≡ pending_verdict
      → (cause ≡ timeout) × ((eventually_finalize log cause e).0.satisfied ≡ false)
  unfolding eventually_finalize eventually_evaluate
  eventually_finalize-pending log cause e h = ground arith

  -- When the time runs out, an always() passes only if its window was closed: a property over the
  -- whole trace, or one whose end anchor was not reached, is undecided or violated.
  pub always_finalize-timeout :
      (log : List Event) (a : Always Event)
      → (always_finalize log timeout a).1 ≡ pass_verdict
      → (always_finalize log timeout a).0.window_ended ≡ true
  unfolding always_finalize always_evaluate
  always_finalize-timeout log a h = ground arith
