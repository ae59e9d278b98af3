-- ===== src/Star/EventLog/Run.antt =====
-- internal/star/events.go: the subscriptions, and the calls of an event log in any order. A
-- call of emit is its part under `mu`; the dispatch changes no log, and the calls that callbacks make
-- are calls of the sequence.
use faultbox.Base.{ℕ, ◌+◌, Bool, List, [], ◌∷◌, ◌++◌, String, ◌==◌, if◌then◌else◌}
use faultbox.Base.Dict.{Dict}
use faultbox.Star.EventLog.{Event, Subscriber, EventLog, emit, merge_clock, with_subscribers, reset}

unfoldable pub subscribe : (Event → Bool) → EventLog → EventLog × ℕ
unfolding with_subscribers
subscribe filters l =
    let id = l.next_sub_id + 1 in
    let new : Subscriber = record { id = id; filters = filters } in
    (with_subscribers (l.subscribers ++ new ∷ []) id l, id)

-- Only the first subscriber with the identifier goes.
unfoldable pub remove_first : ℕ → List Subscriber → List Subscriber
remove_first id [] = []
remove_first id (s ∷ subs) = if s.id == id then subs else s ∷ remove_first id subs

unfoldable pub unsubscribe : ℕ → EventLog → EventLog
unfolding with_subscribers remove_first
unsubscribe id l = with_subscribers (remove_first id l.subscribers) l.next_sub_id l

unfoldable pub clear_subscribers : EventLog → EventLog
unfolding with_subscribers
clear_subscribers l = with_subscribers [] l.next_sub_id l

pub data LogOp : Type 0 where
  emit_op : ℕ → String → String → Dict String → LogOp
  merge_clock_op : String → String → LogOp
  subscribe_op : (Event → Bool) → LogOp
  unsubscribe_op : ℕ → LogOp
  clear_subscribers_op : LogOp
  reset_op : LogOp

unfoldable pub step : EventLog → LogOp → EventLog
step l (emit_op now typ service fields) = (emit now typ service fields l).0
step l (merge_clock_op local remote) = merge_clock local remote l
step l (subscribe_op filters) = (subscribe filters l).0
step l (unsubscribe_op id) = unsubscribe id l
step l clear_subscribers_op = clear_subscribers l
step l reset_op = reset l

unfoldable pub run : EventLog → List LogOp → EventLog
unfolding step
run l [] = l
run l (op ∷ ops) = run (step l op) ops
