-- ===== src/Star/Temporal/Safety.antt =====
-- internal/star/temporal.go: the window of an always() during a test, and what violates it.
use faultbox.Base.{◌≡◌, Bool, true, not, ◌&&◌, ◌||◌, List, String}
use faultbox.Star.Temporal.{CallResult, Reason, BetweenAnchor, Always, start_opens, end_seen}
use faultbox.Star.Temporal.Liveness.{is_true}
use faultbox.Star.Temporal.Moments.{mentioned}

module _ {Event : Type 0} where
  abbrev pub opened : BetweenAnchor Event → List String → List Event → Bool
  opened start signals log =
      start_opens start.matcher start.name log || mentioned start.name signals

  abbrev pub closed : BetweenAnchor Event → List String → List Event → Bool
  closed end signals log = end_seen end.matcher log || mentioned end.name signals

  -- A violation, as a property of the log and the signals alone: the start of the window is in it
  -- or was signalled, its end is neither, and the predicate does not hold of the log.
  unfoldable pub breaks :
      (List Event → CallResult)
      → BetweenAnchor Event
      → BetweenAnchor Event
      → List String
      → List Event
      → Bool
  breaks predicate start end signals log =
      opened start signals log && not (closed end signals log) && not (is_true (predicate log))

  abbrev state :
      (List Event → CallResult)
      → BetweenAnchor Event
      → BetweenAnchor Event
      → Bool
      → Reason
      → Bool
      → Bool
      → Always Event
  state predicate start end violated msg started ended = record {
    predicate = predicate;
    between_start = start;
    between_end = end;
    violated = violated;
    violation_msg = msg;
    window_started = started;
    window_ended = ended;
  }

  -- What the state remembers of the window is what the log and the signals show.
  unfoldable Window :
      BetweenAnchor Event → BetweenAnchor Event → Bool → Bool → List String → List Event → Type 0
  Window start end started ended signals log =
      (started ≡ true → opened start signals log ≡ true)
      × (mentioned start.name signals ≡ true → started ≡ true)
      × (ended ≡ true → closed end signals log ≡ true)
      × (mentioned end.name signals ≡ true → ended ≡ true)
