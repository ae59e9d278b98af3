-- ===== src/Star/EventLog/Numbers.antt =====
-- internal/star/events.go: the sequence numbers of the events.
use faultbox.Base.{
  ℕ, zero, suc, ◌+◌, ◌≡◌, refl, ap, ◌∙◌, some, List, [], ◌∷◌, ◌++◌, length, length-append,
  get_elem?, arith,
}
use faultbox.Star.EventLog.{
  Event, EventLog, new_event_log, new_event, append_event, emit, merge_clock, with_subscribers,
  reset,
}
use faultbox.Star.EventLog.Run.{
  LogOp, emit_op, merge_clock_op, subscribe_op, unsubscribe_op, clear_subscribers_op, reset_op,
  subscribe, unsubscribe, clear_subscribers, step, run,
}

-- The events are numbered from `first` on.
unfoldable From : ℕ → List Event → Type 0
From first [] = Unit
From first (ev ∷ events) = (ev.seq ≡ first) × From (first + 1) events

From-snoc :
    (first : ℕ) (events : List Event) (new : Event)
    → new.seq ≡ first + length events
    → From first events
    → From first (events ++ new ∷ [])
unfolding From
From-snoc first [] new e h = (omega (arith, e), tt)
From-snoc first (ev ∷ events) new e h =
    (h.0, From-snoc (first + 1) events new (omega (arith, e)) h.1)

From-get_elem? :
    (first : ℕ) (events : List Event) (i : ℕ) (ev : Event)
    → From first events
    → get_elem? events i ≡ some ev
    → ev.seq ≡ first + i
unfolding From
From-get_elem? first [] i ev h e = absurd cc
From-get_elem? first (x ∷ events) zero ev h e =
    let same : ev ≡ x = cc in ap (λ y. y.seq) same ∙ (h.0 ∙ omega arith)
From-get_elem? first (x ∷ events) (suc i) ev h e =
    omega (arith, From-get_elem? (first + 1) events i ev h.1 e)

Numbered : EventLog → Type 0
unfolding From
Numbered l = (l.seq ≡ length l.events) × From 1 l.events

step-Numbered : (l : EventLog) (op : LogOp) → Numbered l → Numbered (step l op)
unfolding Numbered step emit append_event new_event merge_clock subscribe unsubscribe
    clear_subscribers with_subscribers reset
step-Numbered l (emit_op now typ service fields) h =
    let ev = new_event now typ service fields l in
    (
      omega (arith, h.0, length-append l.events (ev ∷ [])),
      From-snoc 1 l.events ev (omega (arith, h.0)) h.1,
    )
step-Numbered l (merge_clock_op local remote) h = h
step-Numbered l (subscribe_op filters) h = h
step-Numbered l (unsubscribe_op id) h = h
step-Numbered l clear_subscribers_op h = h
step-Numbered l reset_op h = (refl, unfold From in tt)

run-Numbered : (l : EventLog) (ops : List LogOp) → Numbered l → Numbered (run l ops)
unfolding run
run-Numbered l [] h = h
run-Numbered l (op ∷ ops) h = run-Numbered (step l op) ops (step-Numbered l op h)

-- After any calls of a new log, the number of an event is its position, counted from 1, and the
-- log's counter is the number of its events.
pub run-seq :
    (ops : List LogOp) (i : ℕ) (ev : Event)
    → get_elem? (run new_event_log ops).events i ≡ some ev
    → (ev.seq ≡ i + 1) × ((run new_event_log ops).seq ≡ length (run new_event_log ops).events)
run-seq ops i ev e =
    let start : Numbered new_event_log = unfold Numbered From in (refl, tt) in
    let h = run-Numbered new_event_log ops start in
    unfold Numbered in
    (omega (arith, From-get_elem? 1 (run new_event_log ops).events i ev h.1 e), h.0)
