-- ===== src/Star/EventLog/Tests.antt =====
-- Tests of the event log of internal/star/events.go: a database sends, and an api hears of it.
use faultbox.Base.{◌≡◌, ◌↔◌, refl, Bool, true, false, some, List, [], ◌∷◌, str_eq, arith, inl}
use faultbox.Star.EventLog.{
  with_subscribers, Event, new_event_log, new_event, append_event, emit, merge_clock,
  copy_subscribers, notified,
}
use faultbox.Star.EventLog.Run.{
  LogOp, emit_op, merge_clock_op, subscribe_op, run, step, unsubscribe, subscribe,
}
use faultbox.Star.EventLog.Query.{events_by_type, events_by_service, select}
use faultbox.Star.EventLog.Index.{run-indexes}
use faultbox.Star.EventLog.Subscribers.{has_id, unsubscribe-silent}
use faultbox.Star.EventLog.Clock.{vc_happens_before, Before}
use faultbox.Star.EventLog.Clock.Order.{vc_happens_before_iff}
use faultbox.Star.EventLog.Causality.{Among, heard_after}
use faultbox.Star.EventLog.Causality.Decides.{vc_happens_before-heard}

abbrev sent : Event
sent = new_event 3 "step_send" "db" [] new_event_log

abbrev calls : List LogOp
calls = emit_op 3 "step_send" "db" [] ∷ merge_clock_op "api" "db" ∷ []

abbrev ready : Event → Bool
ready ev = str_eq ev.typ "service_ready"

run-indexes_example :
    (events_by_type "step_send" (run new_event_log calls)
      ≡ some (select (λ ev. ev.typ) "step_send" (run new_event_log calls).events))
    × (events_by_service "step_send" (run new_event_log calls)
        ≡ some (select (λ ev. ev.service) "step_send" (run new_event_log calls).events))
run-indexes_example = run-indexes calls "step_send"

vc_happens_before_iff_example :
    (vc_happens_before (("db", 1) ∷ []) (("api", 1) ∷ ("db", 1) ∷ []) ≡ true)
    ↔ Before (("db", 1) ∷ []) (("api", 1) ∷ ("db", 1) ∷ [])
vc_happens_before_iff_example = vc_happens_before_iff (("db", 1) ∷ []) (("api", 1) ∷ ("db", 1) ∷ [])

vc_happens_before-heard_example :
    (vc_happens_before sent.vector_clock
        (new_event 4 "step_recv" "api" [] (run new_event_log calls)).vector_clock
      ≡ true)
    ↔ Among sent (heard_after new_event_log calls (λ t. []) "api")
vc_happens_before-heard_example =
    vc_happens_before-heard calls sent 4 "step_recv" "api" []
      (unfold run step emit append_event new_event merge_clock Among in inl refl)
      (unfold new_event in refl) refl

abbrev db_ready : Event
db_ready = new_event 5 "service_ready" "db" [] (run new_event_log calls)

unsubscribe-silent_example :
    has_id 1 (
      notified db_ready (
        copy_subscribers true
          (run (unsubscribe 1 (run new_event_log (subscribe_op ready ∷ []))) calls)))
    ≡ false
unsubscribe-silent_example =
    unsubscribe-silent (subscribe_op ready ∷ []) calls 1 db_ready true
      (unfold run step subscribe with_subscribers in omega arith)
