-- ===== src/Connowner.antt =====
-- internal/connowner/tracker.go: which managed process a connection belongs to. An instance is the
-- token of its registration, which its text contains; addresses are numbers. What /proc says is an
-- argument of each call. Bindings live in a store, and a bridge names one by its place there.
pub mod Owners
pub mod Run
pub mod Active
pub mod Resolve
pub mod Tests
use faultbox.Base.{
  ℕ, zero, suc, ◌+◌, ◌≡◌, Bool, true, false, not, ◌&&◌, ◌||◌, Option, none, some, List, [], ◌∷◌,
  ◌++◌, String, str_eq, ltb, length, get_elem?, ◌==◌, if◌then◌else◌,
}

pub record Source : Type 0 where
  pub service : String
  pub instance_token : Option ℕ
  pub pid : ℕ

abbrev pub unknown : Source
unknown = record { service = ""; instance_token = none; pid = 0 }

abbrev pub has_token : Option ℕ → Bool
has_token none = false
has_token (some n) = true

abbrev pub is_known : Source → Bool
is_known s = has_token s.instance_token

abbrev pub same_token : Option ℕ → Option ℕ → Bool
same_token none none = true
same_token none (some n) = false
same_token (some m) none = false
same_token (some m) (some n) = m == n

unfoldable pub same_source : Source → Source → Bool
same_source a b =
    str_eq a.service b.service && (same_token a.instance_token b.instance_token && a.pid == b.pid)

pub record Endpoint : Type 0 where
  pub addr : ℕ
  pub port : ℕ

pub record Tuple : Type 0 where
  pub from : Endpoint
  pub to : Endpoint

unfoldable pub same_tuple : Tuple → Tuple → Bool
same_tuple a b =
    (a.from.addr == b.from.addr && a.from.port == b.from.port)
    && (a.to.addr == b.to.addr && a.to.port == b.to.port)

pub record Registration : Type 0 where
  pub source : Source
  pub start : ℕ
  pub token : ℕ

pub record Binding : Type 0 where
  pub tuple : Tuple
  pub valid : Bool
  pub closed : Bool
  pub source : Source

-- An entry of `bridges[key]`, with the place of its binding.
pub record Bridge : Type 0 where
  pub key : Tuple
  pub token : ℕ
  pub binding : ℕ

pub record Tracker : Type 0 where
  pub next : ℕ
  pub registrations : List Registration
  pub bridges : List Bridge
  pub bindings : List Binding

abbrev pub new_tracker : Tracker
new_tracker = record { next = 0; registrations = []; bridges = []; bindings = [] }

unfoldable pub add_registration : String → ℕ → ℕ → Tracker → Tracker
add_registration service pid start t =
    let token = t.next + 1 in
    let source : Source = record { service = service; instance_token = some token; pid = pid } in
    let reg : Registration = record { source = source; start = start; token = token } in
    record {
      next = token;
      registrations = t.registrations ++ reg ∷ [];
      bridges = t.bridges;
      bindings = t.bindings;
    }

-- `Register`, with what `processStart` gave: the token that `unregister` takes, if it succeeds.
unfoldable pub register : String → ℕ → Option ℕ → Tracker → Tracker × Option ℕ
unfolding add_registration
register service pid none t = (t, none)
register service pid (some start) t =
    if str_eq service "" || pid == 0
    then (t, none)
    else (add_registration service pid start t, some (t.next + 1))

unfoldable pub without_token : ℕ → List Registration → List Registration
without_token token [] = []
without_token token (reg ∷ regs) =
    let rest = without_token token regs in if reg.token == token then rest else reg ∷ rest

-- What `Register` returns for cleaning up; a second call changes nothing.
unfoldable pub unregister : ℕ → Tracker → Tracker
unfolding without_token
unregister token t = record {
  next = t.next;
  registrations = without_token token t.registrations;
  bridges = t.bridges;
  bindings = t.bindings;
}

unfoldable pub find_registration : Option ℕ → List Registration → Option Registration
find_registration instance_token [] = none
find_registration instance_token (reg ∷ regs) =
    let rest = find_registration instance_token regs in
    if same_token reg.source.instance_token instance_token then some reg else rest

abbrev pub start_is : ℕ → Option ℕ → Bool
start_is start none = false
start_is start (some now) = now == start

abbrev pub still_active : Source → Option ℕ → Option Registration → Bool
still_active source now none = false
still_active source now (some reg) = same_source reg.source source && start_is reg.start now

-- `IsActive`, with what `processStart` gives for the source's process.
unfoldable pub is_active : Source → Option ℕ → Tracker → Bool
unfolding find_registration same_source
is_active source now t =
    if is_known source
    then still_active source now (find_registration source.instance_token t.registrations)
    else false
