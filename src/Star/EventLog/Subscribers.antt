-- ===== src/Star/EventLog/Subscribers.antt =====
-- internal/star/events.go: the subscribers of the event log.
use faultbox.Base.{
  ℕ, ◌+◌, ◌≤◌, ◌<◌, ◌≡◌, refl, Bool, false, ◌||◌, List, [], ◌∷◌, ◌++◌, ◌==◌, arith, Bool-cases, inl,
  inr,
}
use faultbox.Star.EventLog.{
  Event, Subscriber, EventLog, new_event_log, notified, copy_subscribers, append_event, emit,
  merge_clock, with_subscribers, reset,
}
use faultbox.Star.EventLog.Run.{
  LogOp, emit_op, merge_clock_op, subscribe_op, unsubscribe_op, clear_subscribers_op, reset_op,
  subscribe, remove_first, unsubscribe, clear_subscribers, step, run,
}

-- The identifiers go up from above `low`, and none is above `next`.
unfoldable Ascending : ℕ → List Subscriber → ℕ → Type 0
Ascending low [] next = low ≤ next
Ascending low (s ∷ subs) next = (low < s.id) × Ascending s.id subs next

Ascending-weaken :
    (low high next : ℕ) (subs : List Subscriber)
    → low ≤ high
    → Ascending high subs next
    → Ascending low subs next
unfolding Ascending
Ascending-weaken low high next [] le h = omega (arith, le, h)
Ascending-weaken low high next (s ∷ subs) le h = (omega (arith, le, h.0), h.1)

Ascending-snoc :
    (low next : ℕ) (subs : List Subscriber) (new : Subscriber)
    → new.id ≡ next + 1
    → Ascending low subs next
    → Ascending low (subs ++ new ∷ []) (next + 1)
unfolding Ascending
Ascending-snoc low next [] new e h = (omega (arith, e, h), omega (arith, e))
Ascending-snoc low next (s ∷ subs) new e h = (h.0, Ascending-snoc s.id next subs new e h.1)

Ascending-remove_first :
    (low next id : ℕ) (subs : List Subscriber)
    → Ascending low subs next
    → Ascending low (remove_first id subs) next
unfolding Ascending remove_first
Ascending-remove_first low next id [] h = h
Ascending-remove_first low next id (s ∷ subs) h = elim (Bool-cases (s.id == id)) [
  | inl hit ↦ rw (hit) (Ascending-weaken low s.id next subs (omega (arith, h.0)) h.1)
  | inr miss ↦ rw (miss) (h.0, Ascending-remove_first s.id next id subs h.1)
]

unfoldable pub has_id : ℕ → List ℕ → Bool
has_id id [] = false
has_id id (x ∷ xs) = x == id || has_id id xs

unfoldable Absent : ℕ → List Subscriber → Type 0
Absent id [] = Unit
Absent id (s ∷ subs) = ((s.id == id) ≡ false) × Absent id subs

Ascending-Absent :
    (low next id : ℕ) (subs : List Subscriber) → id ≤ low → Ascending low subs next → Absent id subs
unfolding Ascending Absent
Ascending-Absent low next id [] le h = tt
Ascending-Absent low next id (s ∷ subs) le h =
    (ground (arith, le, h.0), Ascending-Absent s.id next id subs (omega (arith, le, h.0)) h.1)

remove_first-Absent :
    (low next id : ℕ) (subs : List Subscriber)
    → Ascending low subs next
    → Absent id (remove_first id subs)
unfolding Ascending Absent remove_first
remove_first-Absent low next id [] h = tt
remove_first-Absent low next id (s ∷ subs) h = elim (Bool-cases (s.id == id)) [
  | inl hit ↦ rw (hit) (Ascending-Absent s.id next id subs (ground (arith, hit)) h.1)
  | inr miss ↦ rw (miss) (miss, remove_first-Absent s.id next id subs h.1)
]

Absent-snoc :
    (id : ℕ) (subs : List Subscriber) (new : Subscriber)
    → id < new.id
    → Absent id subs
    → Absent id (subs ++ new ∷ [])
unfolding Absent
Absent-snoc id [] new lt h = (ground (arith, lt), tt)
Absent-snoc id (s ∷ subs) new lt h = (h.0, Absent-snoc id subs new lt h.1)

Absent-remove_first :
    (id other : ℕ) (subs : List Subscriber) → Absent id subs → Absent id (remove_first other subs)
unfolding Absent remove_first
Absent-remove_first id other [] h = h
Absent-remove_first id other (s ∷ subs) h = elim (Bool-cases (s.id == other)) [
  | inl hit ↦ rw (hit) h.1
  | inr miss ↦ rw (miss) (h.0, Absent-remove_first id other subs h.1)
]

Absent-notified :
    (id : ℕ) (ev : Event) (subs : List Subscriber)
    → Absent id subs
    → has_id id (notified ev subs) ≡ false
unfolding Absent has_id
Absent-notified id ev [] h = refl
Absent-notified id ev (s ∷ subs) h = ground (arith, h.0, Absent-notified id ev subs h.1)

step-Ascending :
    (l : EventLog) (op : LogOp)
    → Ascending 0 l.subscribers l.next_sub_id
    → Ascending 0 (step l op).subscribers (step l op).next_sub_id
unfolding step emit append_event merge_clock subscribe unsubscribe clear_subscribers
    with_subscribers reset
step-Ascending l (emit_op now typ service fields) h = h
step-Ascending l (merge_clock_op local remote) h = h
step-Ascending l (subscribe_op filters) h =
    Ascending-snoc 0 l.next_sub_id l.subscribers
      (record { id = l.next_sub_id + 1; filters = filters }) refl h
step-Ascending l (unsubscribe_op id) h = Ascending-remove_first 0 l.next_sub_id id l.subscribers h
step-Ascending l clear_subscribers_op h = unfold Ascending in omega arith
step-Ascending l reset_op h = h

run-Ascending :
    (l : EventLog) (ops : List LogOp)
    → Ascending 0 l.subscribers l.next_sub_id
    → Ascending 0 (run l ops).subscribers (run l ops).next_sub_id
unfolding run
run-Ascending l [] h = h
run-Ascending l (op ∷ ops) h = run-Ascending (step l op) ops (step-Ascending l op h)

Gone : ℕ → EventLog → Type 0
unfolding Absent
Gone id l = Absent id l.subscribers × (id ≤ l.next_sub_id)

step-Gone : (id : ℕ) (l : EventLog) (op : LogOp) → Gone id l → Gone id (step l op)
unfolding Gone step emit append_event merge_clock subscribe unsubscribe clear_subscribers
    with_subscribers reset
step-Gone id l (emit_op now typ service fields) h = h
step-Gone id l (merge_clock_op local remote) h = h
step-Gone id l (subscribe_op filters) h =
    let new : Subscriber = record { id = l.next_sub_id + 1; filters = filters } in
    (Absent-snoc id l.subscribers new (omega (arith, h.1)) h.0, omega (arith, h.1))
step-Gone id l (unsubscribe_op other) h = (Absent-remove_first id other l.subscribers h.0, h.1)
step-Gone id l clear_subscribers_op h = (unfold Absent in tt, h.1)
step-Gone id l reset_op h = h

run-Gone : (id : ℕ) (l : EventLog) (ops : List LogOp) → Gone id l → Gone id (run l ops)
unfolding run
run-Gone id l [] h = h
run-Gone id l (op ∷ ops) h = run-Gone id (step l op) ops (step-Gone id l op h)

-- Once Unsubscribe has returned, whatever is called afterwards, no event is dispatched to the
-- subscriber from a list of subscribers that is copied from then on; its identifier was given out
-- before. Of a list that was copied earlier nothing is said.
pub unsubscribe-silent :
    (before after : List LogOp) (id : ℕ) (ev : Event) (dispatch : Bool)
    → id ≤ (run new_event_log before).next_sub_id
    → has_id id (
        notified ev
          (copy_subscribers dispatch (run (unsubscribe id (run new_event_log before)) after)))
      ≡ false
unfolding copy_subscribers
unsubscribe-silent before after id ev dispatch issued =
    let l = run new_event_log before in
    let start : Ascending 0 [] 0 = unfold Ascending in omega arith in
    let ordered = run-Ascending new_event_log before start in
    let gone : Gone id (unsubscribe id l) =
      unfold Gone unsubscribe with_subscribers in
      (remove_first-Absent 0 l.next_sub_id id l.subscribers ordered, issued) in
    let later = run-Gone id (unsubscribe id l) after gone in
    let m = run (unsubscribe id l) after in
    elim (Bool-cases dispatch) [
      | inl on ↦ rw (on) (Absent-notified id ev m.subscribers (unfold Gone in later.0))
      | inr off ↦ rw (off) (unfold has_id in refl)
    ]
