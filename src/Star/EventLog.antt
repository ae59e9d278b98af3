-- ===== src/Star/EventLog.antt =====
-- internal/star/events.go, with vcHappensBefore of internal/star/trace.go: the event log with its
-- indexes, its vector clocks and its subscribers. The clock on the wall is an argument; a
-- subscriber's filters are their test on one event, and its callback is the log of its calls. The
-- counters go up by one for each call, so they are natural numbers.
pub mod Clock
pub mod Run
pub mod Query
pub mod Index
pub mod Causality
pub mod Subscribers
pub mod Numbers
pub mod Tests
use Prim.Native.String.{◌++◌ as append_str}
use faultbox.Base.{
  ℕ, ◌+◌, ◌≡◌, Bool, true, false, not, ◌&&◌, ◌||◌, Option, none, some, List, [], ◌∷◌, ◌++◌, map,
  String, str_eq, ltb, ◌==◌, length, get_elem?, if◌then◌else◌,
}
use faultbox.Base.Names.{keys}
use faultbox.Base.Dict.{Dict, lookup, insert}

abbrev pub VectorClock : Type 0
VectorClock = Dict ℕ

pub record Event : Type 0 where
  pub seq : ℕ
  pub timestamp : ℕ
  pub typ : String
  pub event_type : String
  pub partition_key : String
  pub service : String
  pub fields : Dict String
  pub vector_clock : VectorClock

pub record Subscriber : Type 0 where
  pub id : ℕ
  pub filters : Event → Bool

pub record EventLog : Type 0 where
  pub events : List Event
  pub generation : ℕ
  pub seq : ℕ
  pub clocks : Dict VectorClock
  pub by_type : Dict (List ℕ)
  pub by_service : Dict (List ℕ)
  pub subscribers : List Subscriber
  pub next_sub_id : ℕ

abbrev pub new_event_log : EventLog
new_event_log = record {
  events = [];
  generation = 0;
  seq = 0;
  clocks = [];
  by_type = [];
  by_service = [];
  subscribers = [];
  next_sub_id = 0;
}

-- What indexing a Go map gives: the zero value for a missing key.
abbrev pub or_zero : Option ℕ → ℕ
or_zero none = 0
or_zero (some n) = n

abbrev pub or_empty {ℓ} : {A : Type ℓ} → Option (List A) → List A
or_empty none = []
or_empty (some xs) = xs

abbrev pub tick : String → VectorClock → ℕ
tick k vc = or_zero (lookup k vc)

abbrev pub clock_of : String → Dict VectorClock → VectorClock
clock_of service clocks = or_empty (lookup service clocks)

abbrev pub indexes : String → Dict (List ℕ) → List ℕ
indexes key index = or_empty (lookup key index)

-- `l.clocks[service][service]++`, on an empty clock when there is none.
abbrev pub tick_service : String → VectorClock → VectorClock
tick_service service vc = insert service (tick service vc + 1) vc

abbrev pub advance_clocks : String → Dict VectorClock → Dict VectorClock
advance_clocks service clocks =
    if str_eq service ""
    then clocks
    else insert service (tick_service service (clock_of service clocks)) clocks

-- `vc`: the snapshot, which is nil without a service.
abbrev pub snapshot : String → Dict VectorClock → VectorClock
snapshot service clocks = if str_eq service "" then [] else clock_of service clocks

abbrev pub dotted : String → Option String → String
dotted typ none = typ
dotted typ (some suffix) = append_str typ (append_str "." suffix)

abbrev pub has_target : String → Bool
has_target typ =
    str_eq typ "step_send"
    || str_eq typ "step_recv"
    || str_eq typ "client_call"
    || str_eq typ "client_return"
    || str_eq typ "contract_violation"

abbrev pub event_type_without : String → Option String → String
event_type_without typ target =
    if str_eq typ "service_started"
    then "lifecycle.started"
    else if str_eq typ "service_ready"
    then "lifecycle.ready"
    else if has_target typ
    then dotted typ target
    else typ

abbrev pub event_type_of : String → Option String → Option String → String
event_type_of typ none target = event_type_without typ target
event_type_of typ (some syscall) target = dotted typ (some syscall)

-- `l.byType[ev.Type] = append(l.byType[ev.Type], idx)`, for a key that is not empty.
unfoldable pub add_index : String → ℕ → Dict (List ℕ) → Dict (List ℕ)
add_index key idx index =
    if str_eq key "" then index else insert key (indexes key index ++ idx ∷ []) index

unfoldable pub new_event : ℕ → String → String → Dict String → EventLog → Event
new_event now typ service fields l = record {
  seq = l.seq + 1;
  timestamp = now;
  typ = typ;
  event_type = event_type_of typ (lookup "syscall" fields) (lookup "target" fields);
  partition_key = service;
  service = service;
  fields = fields;
  vector_clock = snapshot service (advance_clocks service l.clocks);
}

unfoldable pub append_event : Event → EventLog → EventLog
unfolding add_index
append_event ev l = record {
  events = l.events ++ ev ∷ [];
  generation = l.generation;
  seq = l.seq + 1;
  clocks = advance_clocks ev.service l.clocks;
  by_type = add_index ev.typ (length l.events) l.by_type;
  by_service = add_index ev.service (length l.events) l.by_service;
  subscribers = l.subscribers;
  next_sub_id = l.next_sub_id;
}

-- The part of `emit` under `mu`: the log after it, and the event for the dispatch.
unfoldable pub emit : ℕ → String → String → Dict String → EventLog → EventLog × Event
unfolding new_event append_event
emit now typ service fields l =
    let ev = new_event now typ service fields l in (append_event ev l, ev)

-- The copy that `emit` takes under `subMu`, later than the append: other calls may come between.
-- `recordOnly` does not dispatch.
unfoldable pub copy_subscribers : Bool → EventLog → List Subscriber
copy_subscribers dispatch l = if dispatch then l.subscribers else []

-- The loop over the copy, with no lock held: the subscribers whose callback runs on the event, in
-- their order, whoever unsubscribes meanwhile.
abbrev pub notified : Event → List Subscriber → List ℕ
notified ev [] = []
notified ev (s ∷ subs) = if s.filters ev then s.id ∷ notified ev subs else notified ev subs

-- The body of `for k, v := range l.clocks[remote]`, over the keys.
unfoldable pub merge_keys : List String → VectorClock → VectorClock → VectorClock
merge_keys [] remote local = local
merge_keys (k ∷ ks) remote local =
    merge_keys ks remote
      (if ltb (tick k local) (tick k remote) then insert k (tick k remote) local else local)

abbrev pub merged : Option VectorClock → VectorClock → VectorClock
merged none local = local
merged (some remote) local = merge_keys (keys remote) remote local

-- `clocks[local]` is made first, so that a missing `remote` that is `local` is empty by then.
unfoldable pub merge_clock : String → String → EventLog → EventLog
unfolding merge_keys
merge_clock local remote l =
    let made = insert local (clock_of local l.clocks) l.clocks in
    record {
      events = l.events;
      generation = l.generation;
      seq = l.seq;
      clocks = insert local (merged (lookup remote made) (clock_of local made)) made;
      by_type = l.by_type;
      by_service = l.by_service;
      subscribers = l.subscribers;
      next_sub_id = l.next_sub_id;
    }

unfoldable pub with_subscribers : List Subscriber → ℕ → EventLog → EventLog
with_subscribers subs next l = record {
  events = l.events;
  generation = l.generation;
  seq = l.seq;
  clocks = l.clocks;
  by_type = l.by_type;
  by_service = l.by_service;
  subscribers = subs;
  next_sub_id = next;
}

unfoldable pub reset : EventLog → EventLog
reset l = record {
  events = [];
  generation = l.generation + 1;
  seq = 0;
  clocks = [];
  by_type = [];
  by_service = [];
  subscribers = l.subscribers;
  next_sub_id = l.next_sub_id;
}
