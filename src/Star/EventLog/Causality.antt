-- ===== src/Star/EventLog/Causality.antt =====
-- internal/star/events.go: the vector clocks of the events of a log, beside what each service has
-- heard of: its own events, and at each merge everything that the other one has heard of.
pub mod Times
pub mod Kept
pub mod Emitted
pub mod Merged
pub mod Decides
use faultbox.Base.{
  ◌≡◌, ◌⊎◌, inl, inr, refl, Bool, true, false, String, str_eq, List, [], ◌∷◌, ◌++◌, if◌then◌else◌,
}
use faultbox.Star.EventLog.{Event, EventLog, new_event}
use faultbox.Star.EventLog.Run.{
  LogOp, emit_op, merge_clock_op, subscribe_op, unsubscribe_op, clear_subscribers_op, reset_op,
  step,
}

unfoldable pub Among : Event → List Event → Type 0
Among e [] = ⊥
Among e (x ∷ xs) = (x ≡ e) ⊎ Among e xs

abbrev pub Heard : Type 0
Heard = String → List Event

-- What the services have heard of after one call on `l`.
unfoldable pub learn : EventLog → LogOp → Heard → Heard
learn l (emit_op now typ service fields) heard t =
    if str_eq service t then heard t ++ new_event now typ service fields l ∷ [] else heard t
learn l (merge_clock_op local remote) heard t =
    if str_eq local t then heard t ++ heard remote else heard t
learn l (subscribe_op filters) heard t = heard t
learn l (unsubscribe_op id) heard t = heard t
learn l clear_subscribers_op heard t = heard t
learn l reset_op heard t = []

unfoldable pub heard_after : EventLog → List LogOp → Heard → Heard
unfolding learn
heard_after l [] heard = heard
heard_after l (op ∷ ops) heard = heard_after (step l op) ops (learn l op heard)

pub Among-left : (e : Event) (xs ys : List Event) → Among e xs → Among e (xs ++ ys)
unfolding Among
Among-left e [] ys h = absurd h
Among-left e (x ∷ xs) ys (inl here) = inl here
Among-left e (x ∷ xs) ys (inr there) = inr (Among-left e xs ys there)

pub Among-right : (e : Event) (xs ys : List Event) → Among e ys → Among e (xs ++ ys)
unfolding Among
Among-right e [] ys h = h
Among-right e (x ∷ xs) ys h = inr (Among-right e xs ys h)

pub Among-append : (e : Event) (xs ys : List Event) → Among e (xs ++ ys) → Among e xs ⊎ Among e ys
unfolding Among
Among-append e [] ys h = inr h
Among-append e (x ∷ xs) ys (inl here) = inl (inl here)
Among-append e (x ∷ xs) ys (inr there) = elim (Among-append e xs ys there) [
  | inl left ↦ inl (inr left)
  | inr right ↦ inr right
]

pub Among-snoc : (e n : Event) (xs : List Event) → Among e (xs ++ n ∷ []) → Among e xs ⊎ (n ≡ e)
unfolding Among
Among-snoc e n [] (inl last) = inr last
Among-snoc e n [] (inr there) = absurd there
Among-snoc e n (x ∷ xs) (inl here) = inl (inl here)
Among-snoc e n (x ∷ xs) (inr there) = elim (Among-snoc e n xs there) [
  | inl before ↦ inl (inr before)
  | inr last ↦ inr last
]

pub Among-if :
    (e : Event) (b : Bool) (xs ys : List Event)
    → Among e (if b then xs else ys)
    → ((b ≡ true) × Among e xs) ⊎ ((b ≡ false) × Among e ys)
Among-if e true xs ys h = inl (refl, h)
Among-if e false xs ys h = inr (refl, h)

pub Among-kept :
    (e : Event) (b : Bool) (xs ys : List Event) → Among e xs → Among e (if b then xs ++ ys else xs)
Among-kept e true xs ys h = Among-left e xs ys h
Among-kept e false xs ys h = h
