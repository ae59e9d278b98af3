-- ===== src/Star/EventLog/Causality/Decides.antt =====
-- internal/star/events.go and trace.go: which earlier events the clock of an event comes after.
use faultbox.Base.{
  ℕ, ◌≡◌, ◌↔◌, true, false, List, [], ◌∷◌, String, str_eq, eq_iff, eq_refl, arith, Bool-cases, inl,
  inr,
}
use mathlib.Core.Path.{subst}
use faultbox.Base.Dict.{Dict, lookup}
use faultbox.Star.EventLog.{
  Event, EventLog, new_event_log, new_event, emit, with_subscribers, reset,
}
use faultbox.Star.EventLog.Run.{
  LogOp, emit_op, merge_clock_op, subscribe_op, unsubscribe_op, clear_subscribers_op, reset_op,
  subscribe, unsubscribe, clear_subscribers, step, run,
}
use faultbox.Star.EventLog.Clock.{vc_happens_before, Below, Before}
use faultbox.Star.EventLog.Clock.Order.{vc_happens_before_iff}
use faultbox.Star.EventLog.Causality.{Among, Heard, learn, heard_after}
use faultbox.Star.EventLog.Causality.Kept.{Own, Reached, Told, Self, Causal}
use faultbox.Star.EventLog.Causality.Emitted.{
  Own-emitted, Reached-emitted, Told-emitted, Self-emitted, time_emitted, time_foreign, time_grows,
  tick-new_event,
}
use faultbox.Star.EventLog.Causality.Merged.{
  Own-merge_clock, Reached-merge_clock, Told-merge_clock, Self-merge_clock,
}

reset-Causal : (l : EventLog) (heard : Heard) → Causal (reset l) (learn l reset_op heard)
unfolding Causal Own Reached Told Self Among learn reset lookup
reset-Causal l heard = (
  λ s k. omega arith,
  λ e t k am named. absurd am,
  λ e t am named le. absurd am,
  λ e am. absurd am,
)

step-Causal :
    (l : EventLog) (heard : Heard) (op : LogOp)
    → Causal l heard
    → Causal (step l op) (learn l op heard)
unfolding Causal step emit subscribe unsubscribe clear_subscribers with_subscribers learn Own
    Reached Told Self
step-Causal l heard (emit_op now typ service fields) h = (
  Own-emitted l now typ service fields h.0,
  Reached-emitted l heard now typ service fields h.1,
  Told-emitted l heard now typ service fields h.0 h.3 h.2,
  Self-emitted l heard now typ service fields h.3,
)
step-Causal l heard (merge_clock_op local remote) h = (
  Own-merge_clock l heard local remote h.0,
  Reached-merge_clock l heard local remote h.1,
  Told-merge_clock l heard local remote h.2,
  Self-merge_clock l heard local remote h.3,
)
step-Causal l heard (subscribe_op filters) h = h
step-Causal l heard (unsubscribe_op id) h = h
step-Causal l heard clear_subscribers_op h = h
step-Causal l heard reset_op h = reset-Causal l heard

run-Causal :
    (l : EventLog) (heard : Heard) (ops : List LogOp)
    → Causal l heard
    → Causal (run l ops) (heard_after l ops heard)
unfolding run heard_after
run-Causal l heard [] h = h
run-Causal l heard (op ∷ ops) h =
    run-Causal (step l op) (learn l op heard) ops (step-Causal l heard op h)

new_event_log-Causal : Causal new_event_log (λ t. [])
unfolding Causal Own Reached Told Self Among lookup
new_event_log-Causal = (
  λ s k. omega arith,
  λ e t k am named. absurd am,
  λ e t am named le. absurd am,
  λ e am. absurd am,
)

module _ (l : EventLog) (heard : Heard) (now : ℕ) (typ service : String) (fields : Dict String)
    (e : Event) where
  Among-Before :
      Causal l heard
      → str_eq e.service "" ≡ false
      → str_eq service "" ≡ false
      → Among e (heard service)
      → Before e.vector_clock (new_event now typ service fields l).vector_clock
  unfolding Causal Own Reached Before Below
  Among-Before h named_e named am = (
    λ k. omega (
      arith,
      h.1 e service k am named_e,
      tick-new_event l now typ service fields k named,
      time_grows l now typ service fields service k,
    ),
    (
      service,
      ground (
        arith,
        h.1 e service service am named_e,
        tick-new_event l now typ service fields service named,
        time_emitted l now typ service fields service service named,
        eq_refl service,
      ),
    ),
  )

  Below-Among :
      Causal l heard
      → Among e l.events
      → str_eq e.service "" ≡ false
      → str_eq service "" ≡ false
      → Below e.vector_clock (new_event now typ service fields l).vector_clock
      → Among e (heard service)
  unfolding Causal Told Self Below
  Below-Among h am named_e named below = elim (Bool-cases (str_eq e.service service)) [
    | inl own ↦ subst (λ s. Among e (heard s)) ((eq_iff e.service service).0 own) (h.3 e am)
    | inr foreign ↦ h.2 e service am named_e (
        omega (
          arith,
          below e.service,
          tick-new_event l now typ service fields e.service named,
          time_foreign l now typ service fields service e.service foreign,
        ))
  ]

-- After any calls of a new log, the clock that the next event of a service gets is after the clock
-- of an earlier event exactly if that service has heard of the earlier event: it is its own, or it
-- came by a chain of merges. Both events belong to a service.
pub vc_happens_before-heard :
    (ops : List LogOp) (e : Event) (now : ℕ) (typ service : String) (fields : Dict String)
    → Among e (run new_event_log ops).events
    → str_eq e.service "" ≡ false
    → str_eq service "" ≡ false
    → (vc_happens_before e.vector_clock
          (new_event now typ service fields (run new_event_log ops)).vector_clock
        ≡ true)
      ↔ Among e (heard_after new_event_log ops (λ t. []) service)
vc_happens_before-heard ops e now typ service fields am named_e named =
    let l = run new_event_log ops in
    let heard = heard_after new_event_log ops (λ t. []) in
    let inv : Causal l heard = run-Causal new_event_log (λ t. []) ops new_event_log-Causal in
    let iff =
      vc_happens_before_iff e.vector_clock (new_event now typ service fields l).vector_clock in
    (
      λ hb.
          Below-Among l heard now typ service fields e inv am named_e named
            (unfold Before in (iff.0 hb).0),
      λ known. iff.1 (Among-Before l heard now typ service fields e inv named_e named known),
    )
