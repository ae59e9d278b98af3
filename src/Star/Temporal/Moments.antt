-- ===== src/Star/Temporal/Moments.antt =====
-- internal/star/temporal.go and runtime.go (RunTest): an always() during a test, which is evaluated
-- after each event and hears of each lifecycle anchor. One event is dispatched before the next is
-- logged, and no always() that is registered earlier is violated: the subscriber stops at the first
-- one that is.
use faultbox.Base.{
  ◌≡◌, refl, ap, Bool, true, false, ◌||◌, List, [], ◌∷◌, ◌++◌, String, str_eq, arith, Bool-cases,
  inl, inr,
}
use faultbox.Star.Temporal.{Always, always_evaluate, set_window_started, set_window_ended}

-- What happens to an always(): an event is logged, or a lifecycle anchor is signalled.
pub data Moment (Event : Type 0) : Type 0 where
  logged : Event → Moment Event
  signalled : String → Moment Event

abbrev pub mentioned : String → List String → Bool
mentioned name [] = false
mentioned name (s ∷ signals) = str_eq name s || mentioned name signals

module _ {Event : Type 0} where
  -- `signalLifecycleAnchor`, for one always().
  unfoldable pub signal_lifecycle_anchor : String → Always Event → Always Event
  unfolding set_window_started set_window_ended
  signal_lifecycle_anchor anchor a = set_window_ended anchor (set_window_started anchor a)

  -- The always() after what happens when `pre` is logged.
  unfoldable pub always_watch : List Event → List (Moment Event) → Always Event → Always Event
  unfolding signal_lifecycle_anchor
  always_watch pre [] a = a
  always_watch pre (logged ev ∷ more) a =
      always_watch (pre ++ ev ∷ []) more (always_evaluate (pre ++ ev ∷ []) a).0
  always_watch pre (signalled anchor ∷ more) a =
      always_watch pre more (signal_lifecycle_anchor anchor a)

  abbrev pub log_after : List Event → List (Moment Event) → List Event
  log_after pre [] = pre
  log_after pre (logged ev ∷ more) = log_after (pre ++ ev ∷ []) more
  log_after pre (signalled anchor ∷ more) = log_after pre more

  abbrev pub signals_after : List String → List (Moment Event) → List String
  signals_after signals [] = signals
  signals_after signals (logged ev ∷ more) = signals_after signals more
  signals_after signals (signalled anchor ∷ more) = signals_after (anchor ∷ signals) more

  -- At some event, the log up to it and the signals before it have `p`.
  unfoldable pub AtSome :
      (List String → List Event → Bool) → List String → List Event → List (Moment Event) → Type 0
  AtSome p signals pre moments =
      (xs : List (Moment Event)) × (ev : Event) × (ys : List (Moment Event)) × (moments
        ≡ xs ++ logged ev ∷ ys)
      × (p (signals_after signals xs) (log_after pre xs ++ ev ∷ []) ≡ true)

  unfoldable pub at_some :
      (List String → List Event → Bool) → List String → List Event → List (Moment Event) → Bool
  at_some p signals pre [] = false
  at_some p signals pre (logged ev ∷ more) =
      p signals (pre ++ ev ∷ []) || at_some p signals (pre ++ ev ∷ []) more
  at_some p signals pre (signalled anchor ∷ more) = at_some p (anchor ∷ signals) pre more

  pub at_some-AtSome :
      (p : List String → List Event → Bool) (signals : List String) (pre : List Event)
      (moments : List (Moment Event))
      → at_some p signals pre moments ≡ true
      → AtSome p signals pre moments
  unfolding at_some AtSome
  at_some-AtSome p signals pre [] h = absurd (ground arith)
  at_some-AtSome p signals pre (logged ev ∷ more) h =
      elim (Bool-cases (p signals (pre ++ ev ∷ []))) [
        | inl now ↦ ([], ev, more, refl, now)
        | inr later ↦
            let (x, y, z, e, q) = at_some-AtSome p signals (pre ++ ev ∷ []) more (ground arith) in
            (logged ev ∷ x, y, z, ap (λ r. logged ev ∷ r) e, q)
      ]
  at_some-AtSome p signals pre (signalled anchor ∷ more) h =
      let (x, y, z, e, q) = at_some-AtSome p (anchor ∷ signals) pre more h in
      (signalled anchor ∷ x, y, z, ap (λ r. signalled anchor ∷ r) e, q)

  pub found_at :
      (p : List String → List Event → Bool) (signals : List String) (pre : List Event)
      (xs : List (Moment Event)) (ev : Event) (ys : List (Moment Event))
      → p (signals_after signals xs) (log_after pre xs ++ ev ∷ []) ≡ true
      → at_some p signals pre (xs ++ logged ev ∷ ys) ≡ true
  unfolding at_some
  found_at p signals pre [] ev ys h = ground (arith, h)
  found_at p signals pre (logged v ∷ xs) ev ys h =
      ground (arith, found_at p signals (pre ++ v ∷ []) xs ev ys h)
  found_at p signals pre (signalled anchor ∷ xs) ev ys h =
      found_at p (anchor ∷ signals) pre xs ev ys h
