-- ===== src/Star/EventLog/Clock.antt =====
-- internal/star/trace.go (vcHappensBefore): the order of vector clocks. A range over a map is a
-- walk over its keys.
pub mod Order
use faultbox.Base.{
  ℕ, ◌+◌, ◌≤◌, ◌<◌, ◌≡◌, ◌↔◌, refl, sym, ap, ◌∙◌, Bool, true, false, not, ◌&&◌, ◌||◌, Option, none,
  some, List, [], ◌∷◌, String, str_eq, eq_iff, eq_refl, ltb, leb, if◌then◌else◌, arith, Bool-cases,
  inl, inr,
}
use faultbox.Base.Dict.{lookup}
use faultbox.Base.Names.{has, keys}
use faultbox.Star.EventLog.{VectorClock, or_zero, tick}

abbrev pub is_empty_clock : VectorClock → Bool
is_empty_clock [] = true
is_empty_clock (entry ∷ vc) = false

abbrev pub present : Option ℕ → Bool
present none = false
present (some n) = true

-- The first loop: `none` when it returns false, else `strictLess` after it.
unfoldable pub pass_one : List String → VectorClock → VectorClock → Bool → Option Bool
pass_one [] vc1 vc2 strict = some strict
pass_one (k ∷ ks) vc1 vc2 strict =
    let rest = pass_one ks vc1 vc2 (strict || ltb (tick k vc1) (tick k vc2)) in
    if ltb (tick k vc2) (tick k vc1) then none else rest

-- The second loop: whether it gets to its end.
unfoldable pub pass_two : List String → VectorClock → VectorClock → Bool
pass_two [] vc1 vc2 = true
pass_two (k ∷ ks) vc1 vc2 =
    let rest = pass_two ks vc1 vc2 in
    if present (lookup k vc2) then rest else if ltb 0 (tick k vc1) then false else rest

abbrev pub conclude : Option Bool → Bool → Bool
conclude none rest = false
conclude (some strict) rest = if rest then strict else false

unfoldable pub vc_happens_before : VectorClock → VectorClock → Bool
unfolding pass_one pass_two
vc_happens_before vc1 vc2 =
    if is_empty_clock vc1 && is_empty_clock vc2
    then false
    else conclude (pass_one (keys vc2) vc1 vc2 false) (pass_two (keys vc1) vc1 vc2)

-- The order of the clocks as functions of a service, with 0 where a key is missing.
unfoldable pub Below : VectorClock → VectorClock → Type 0
Below vc1 vc2 = (k : String) → tick k vc1 ≤ tick k vc2

unfoldable pub Before : VectorClock → VectorClock → Type 0
unfolding Below
Before vc1 vc2 = Below vc1 vc2 × ((k : String) × (tick k vc1 < tick k vc2))
