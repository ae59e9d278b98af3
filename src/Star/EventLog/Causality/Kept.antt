-- ===== src/Star/EventLog/Causality/Kept.antt =====
-- internal/star/events.go: what each operation keeps of the clocks of a log.
use faultbox.Base.{◌≤◌, ◌≡◌, false, String, str_eq}
use faultbox.Star.EventLog.{Event, EventLog, tick}
use faultbox.Star.EventLog.Causality.{Among, Heard}
use faultbox.Star.EventLog.Causality.Times.{time}

-- Nobody has a later entry for a service than the service itself.
unfoldable pub Own : EventLog → Type 0
Own l = (s k : String) → time l s k ≤ time l k k

-- A service has got at least to the clocks of the events it has heard of.
unfoldable pub Reached : EventLog → Heard → Type 0
unfolding Among
Reached l heard =
    (e : Event) (t k : String)
    → Among e (heard t)
    → str_eq e.service "" ≡ false
    → tick k e.vector_clock ≤ time l t k

-- A service that has got to an event's own entry has heard of it.
unfoldable pub Told : EventLog → Heard → Type 0
unfolding Among
Told l heard =
    (e : Event) (t : String)
    → Among e l.events
    → str_eq e.service "" ≡ false
    → tick e.service e.vector_clock ≤ time l t e.service
    → Among e (heard t)

-- A service has heard of its own events.
unfoldable pub Self : EventLog → Heard → Type 0
unfolding Among
Self l heard = (e : Event) → Among e l.events → Among e (heard e.service)

unfoldable pub Causal : EventLog → Heard → Type 0
unfolding Own Reached Told Self
Causal l heard = Own l × Reached l heard × Told l heard × Self l heard
