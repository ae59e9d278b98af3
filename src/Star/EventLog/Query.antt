-- ===== src/Star/EventLog/Query.antt =====
-- internal/star/events.go: the queries of the event log. An index past the events would panic,
-- which is `none`. A matcher is its test on one event.
use faultbox.Base.{
  ℕ, zero, suc, ◌+◌, ◌≤◌, ◌<◌, ◌≡◌, refl, sym, ap, ◌∙◌, Bool, Option, none, some, List, [], ◌∷◌,
  ◌++◌, String, str_eq, length, get_elem?, take, if◌then◌else◌, arith, Bool-cases, inl, inr,
}
use faultbox.Star.EventLog.{Event, EventLog, indexes}

-- `out[i] = l.events[idx]` for one index.
abbrev pub pick_one : Option Event → Option (List Event) → Option (List Event)
pick_one none rest = none
pick_one (some ev) none = none
pick_one (some ev) (some evs) = some (ev ∷ evs)

unfoldable pub pick_events : List ℕ → List Event → Option (List Event)
pick_events [] events = some []
pick_events (idx ∷ idxs) events = pick_one (get_elem? events idx) (pick_events idxs events)

unfoldable pub events_by_type : String → EventLog → Option (List Event)
unfolding pick_events
events_by_type typ l = pick_events (indexes typ l.by_type) l.events

unfoldable pub events_by_service : String → EventLog → Option (List Event)
unfolding pick_events
events_by_service svc l = pick_events (indexes svc l.by_service) l.events

-- `MatchingEvents`, with the matcher as its test.
unfoldable pub matching_events : (Event → Bool) → List Event → List Event
matching_events m [] = []
matching_events m (ev ∷ events) =
    let rest = matching_events m events in if m ev then ev ∷ rest else rest

-- The events that an index holds for a key: none for the empty one.
unfoldable pub select : (Event → String) → String → List Event → List Event
unfolding matching_events
select field key events =
    if str_eq key "" then [] else matching_events (λ ev. str_eq (field ev) key) events

unfoldable pub count_matching : (Event → Bool) → List Event → ℕ
count_matching m [] = 0
count_matching m (ev ∷ events) =
    let rest = count_matching m events in if m ev then rest + 1 else rest

abbrev pub last_step : (Event → Bool) → Option Event → Option Event → Option Event
last_step m none rest = none
last_step m (some ev) rest = if m ev then some ev else rest

-- The loop of `LastMatching`, which goes down from the given index.
unfoldable pub last_loop : (Event → Bool) → List Event → ℕ → Option Event
last_loop m events zero = none
last_loop m events (suc i) = last_step m (get_elem? events i) (last_loop m events i)

unfoldable pub last_matching : (Event → Bool) → List Event → Option Event
unfolding last_loop
last_matching m events = last_loop m events (length events)

pub matching_events-append :
    (m : Event → Bool) (events : List Event) (new : Event)
    → matching_events m (events ++ new ∷ [])
      ≡ (if m new then matching_events m events ++ new ∷ [] else matching_events m events)
unfolding matching_events
matching_events-append m [] new = ground arith
matching_events-append m (ev ∷ events) new = ground (arith, matching_events-append m events new)

-- The last element of a list.
unfoldable pub last_of : List Event → Option Event
last_of [] = none
last_of (x ∷ []) = some x
last_of (x ∷ y ∷ xs) = last_of (y ∷ xs)

last_of-snoc : (xs : List Event) (x : Event) → last_of (xs ++ x ∷ []) ≡ some x
unfolding last_of
last_of-snoc [] x = refl
last_of-snoc (y ∷ []) x = refl
last_of-snoc (y ∷ z ∷ xs) x = last_of-snoc (z ∷ xs) x

take-snoc :
    (events : List Event) (i : ℕ)
    → i < length events
    → ((ev : Event) × (get_elem? events i ≡ some ev)
        × (take (suc i) events ≡ take i events ++ ev ∷ []))
take-snoc [] i lt = absurd (omega (arith, lt))
take-snoc (x ∷ events) zero lt = (x, refl, refl)
take-snoc (x ∷ events) (suc i) lt =
    let rest = take-snoc events i (omega (arith, lt)) in (rest.0, rest.1, ap (λ xs. x ∷ xs) rest.2)

take-length : (events : List Event) → take (length events) events ≡ events
take-length [] = refl
take-length (x ∷ events) = ap (λ xs. x ∷ xs) (take-length events)

last_loop-take :
    (m : Event → Bool) (events : List Event) (i : ℕ)
    → i ≤ length events
    → last_loop m events i ≡ last_of (matching_events m (take i events))
unfolding last_loop last_of matching_events
last_loop-take m events zero le = refl
last_loop-take m events (suc i) le =
    let here = take-snoc events i (omega (arith, le)) in
    let rest = last_loop-take m events i (omega (arith, le)) in
    let more = matching_events-append m (take i events) here.0 in
    elim (Bool-cases (m here.0)) [
      | inl hit ↦
          rw (here.1, hit, here.2, more, hit)
            (sym (last_of-snoc (matching_events m (take i events)) here.0))
      | inr miss ↦ rw (here.1, miss, here.2, more, miss) rest
    ]

count_matching-length :
    (m : Event → Bool) (events : List Event)
    → count_matching m events ≡ length (matching_events m events)
unfolding count_matching matching_events
count_matching-length m [] = refl
count_matching-length m (ev ∷ events) = ground (arith, count_matching-length m events)

-- The search from the end, the scan and the count agree: the last match is the last event of the
-- scan, there is one exactly if the scan is not empty, and the count is its length.
pub last_matching-scan :
    (m : Event → Bool) (events : List Event)
    → (last_matching m events ≡ last_of (matching_events m events))
      × (count_matching m events ≡ length (matching_events m events))
unfolding last_matching
last_matching-scan m events = (
  last_loop-take m events (length events) (omega arith)
      ∙ ap (λ es. last_of (matching_events m es)) (take-length events),
  count_matching-length m events,
)
