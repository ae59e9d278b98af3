-- ===== src/Star/EventLog/Index.antt =====
-- internal/star/events.go: the secondary indexes of the event log.
use faultbox.Base.{
  ℕ, zero, suc, ◌≡◌, refl, Option, none, some, List, [], ◌∷◌, ◌++◌, String, str_eq, eq_iff, length,
  get_elem?, if◌then◌else◌, arith, Bool-cases, inl, inr,
}
use faultbox.Base.Dict.{Dict, lookup, lookup-insert}
use faultbox.Star.EventLog.{
  Event, EventLog, new_event_log, indexes, add_index, new_event, append_event, emit, merge_clock,
  with_subscribers, reset,
}
use faultbox.Star.EventLog.Query.{
  pick_one, pick_events, events_by_type, events_by_service, matching_events, select,
  matching_events-append,
}
use faultbox.Star.EventLog.Run.{
  LogOp, emit_op, merge_clock_op, subscribe_op, unsubscribe_op, clear_subscribers_op, reset_op,
  subscribe, unsubscribe, clear_subscribers, step, run,
}

get_elem?-grow :
    (events : List Event) (ev new : Event) (i : ℕ)
    → get_elem? events i ≡ some ev
    → get_elem? (events ++ new ∷ []) i ≡ some ev
get_elem?-grow [] ev new i e = absurd cc
get_elem?-grow (x ∷ events) ev new zero e = e
get_elem?-grow (x ∷ events) ev new (suc i) e = get_elem?-grow events ev new i e

get_elem?-last :
    (events : List Event) (new : Event) → get_elem? (events ++ new ∷ []) (length events) ≡ some new
get_elem?-last [] new = refl
get_elem?-last (x ∷ events) new = get_elem?-last events new

pick_one-some :
    (first : Option Event) (rest : Option (List Event)) (found : List Event)
    → pick_one first rest ≡ some found
    → ((ev : Event) × (evs : List Event) × (first ≡ some ev)
        × (rest ≡ some evs)
        × (found ≡ ev ∷ evs))
pick_one-some none rest found e = absurd cc
pick_one-some (some ev) none found e = absurd cc
pick_one-some (some ev) (some evs) found e = (ev, evs, refl, refl, cc)

pick_events-grow :
    (idxs : List ℕ) (events found : List Event) (new : Event)
    → pick_events idxs events ≡ some found
    → pick_events idxs (events ++ new ∷ []) ≡ some found
unfolding pick_events
pick_events-grow [] events found new e = e
pick_events-grow (idx ∷ idxs) events found new e =
    let parts = pick_one-some (get_elem? events idx) (pick_events idxs events) found e in
    rw
      (
        get_elem?-grow events parts.0 new idx parts.2,
        pick_events-grow idxs events parts.1 new parts.3,
        parts.4,
      )
      refl

pick_events-append :
    (idxs : List ℕ) (events found : List Event) (new : Event)
    → pick_events idxs events ≡ some found
    → pick_events (idxs ++ length events ∷ []) (events ++ new ∷ []) ≡ some (found ++ new ∷ [])
unfolding pick_events
pick_events-append [] events found new e =
    let none_found : found ≡ [] = cc in rw (get_elem?-last events new, none_found) refl
pick_events-append (idx ∷ idxs) events found new e =
    let parts = pick_one-some (get_elem? events idx) (pick_events idxs events) found e in
    rw
      (
        get_elem?-grow events parts.0 new idx parts.2,
        pick_events-append idxs events parts.1 new parts.3,
        parts.4,
      )
      refl

indexes-add_index :
    (added key : String) (idx : ℕ) (index : Dict (List ℕ))
    → indexes key (add_index added idx index) ≡ (
        if str_eq added ""
        then indexes key index
        else if str_eq added key
        then indexes added index ++ idx ∷ []
        else indexes key index)
unfolding add_index
indexes-add_index added key idx index =
    ground (arith, lookup-insert added key (indexes added index ++ idx ∷ []) index)

Indexed : (Event → String) → Dict (List ℕ) → List Event → Type 0
unfolding pick_events select
Indexed field index events =
    (key : String) → pick_events (indexes key index) events ≡ some (select field key events)

add_index-Indexed :
    (field : Event → String) (index : Dict (List ℕ)) (events : List Event) (new : Event)
    → Indexed field index events
    → Indexed field (add_index (field new) (length events) index) (events ++ new ∷ [])
unfolding Indexed select
add_index-Indexed field index events new h key =
    let grown = pick_events-grow (indexes key index) events (select field key events) new (h key) in
    let appended =
      pick_events-append (indexes key index) events (select field key events) new (h key) in
    let more = matching_events-append (λ ev. str_eq (field ev) key) events new in
    rw (more, indexes-add_index (field new) key (length events) index) ground
      (arith, grown, appended, eq_iff (field new) key, eq_iff key "", eq_iff (field new) "")

Indexed-empty : (field : Event → String) → Indexed field [] []
unfolding Indexed pick_events select matching_events lookup
Indexed-empty field key = elim (Bool-cases (str_eq key "")) [
  | inl empty ↦ rw (empty) refl
  | inr named ↦ rw (named) refl
]

Consistent : EventLog → Type 0
unfolding Indexed
Consistent l =
    Indexed (λ ev. ev.typ) l.by_type l.events × Indexed (λ ev. ev.service) l.by_service l.events

step-Consistent : (l : EventLog) (op : LogOp) → Consistent l → Consistent (step l op)
unfolding Consistent step emit append_event new_event merge_clock subscribe unsubscribe
    clear_subscribers with_subscribers reset Indexed pick_events select matching_events
step-Consistent l (emit_op now typ service fields) h =
    let ev = new_event now typ service fields l in
    (
      add_index-Indexed (λ e. e.typ) l.by_type l.events ev h.0,
      add_index-Indexed (λ e. e.service) l.by_service l.events ev h.1,
    )
step-Consistent l (merge_clock_op local remote) h = h
step-Consistent l (subscribe_op filters) h = h
step-Consistent l (unsubscribe_op id) h = h
step-Consistent l clear_subscribers_op h = h
step-Consistent l reset_op h = (Indexed-empty (λ ev. ev.typ), Indexed-empty (λ ev. ev.service))

run-Consistent : (l : EventLog) (ops : List LogOp) → Consistent l → Consistent (run l ops)
unfolding run
run-Consistent l [] h = h
run-Consistent l (op ∷ ops) h = run-Consistent (step l op) ops (step-Consistent l op h)

-- After any calls of a new log, the queries by type and by service stay within the log and return,
-- in their order, exactly the events that a scan for that key finds, and none for the empty key.
pub run-indexes :
    (ops : List LogOp) (key : String)
    → (events_by_type key (run new_event_log ops)
        ≡ some (select (λ ev. ev.typ) key (run new_event_log ops).events))
      × (events_by_service key (run new_event_log ops)
          ≡ some (select (λ ev. ev.service) key (run new_event_log ops).events))
unfolding events_by_type events_by_service
run-indexes ops key =
    let start : Consistent new_event_log =
      unfold Consistent in (Indexed-empty (λ ev. ev.typ), Indexed-empty (λ ev. ev.service)) in
    let h : Consistent (run new_event_log ops) = run-Consistent new_event_log ops start in
    unfold Consistent Indexed in (h.0 key, h.1 key)
