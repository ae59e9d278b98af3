-- ===== src/Star/Temporal/Liveness.antt =====
-- internal/star/runtime.go (RunTest) and temporal.go: an eventually() as the terminate_when of a
-- test, the one place where an eventually() is evaluated after each event. One event is dispatched
-- before the next is logged. A registered eventually() is evaluated by `Finalize` alone.
use mathlib.Core.List.{append_assoc, append-nil}
use faultbox.Base.{
  ◌≡◌, ◌↔◌, refl, sym, ap, ◌∙◌, Bool, true, false, ◌&&◌, ◌||◌, Option, none, some, List, [], ◌∷◌,
  ◌++◌, arith, Bool-cases, inl, inr,
}
use faultbox.Star.Temporal.{
  Verdict, pass_verdict, CallResult, raised, value, Eventually, eventually_evaluate,
  eventually_call, seen, first_matching,
}

abbrev pub is_true : CallResult → Bool
is_true (raised err) = false
is_true (value b) = b

abbrev passes : Verdict → Bool
passes pass_verdict = true
passes _ = false

pub or_assoc : (a b c : Bool) → (a || b) || c ≡ a || (b || c)
or_assoc true b c = refl
or_assoc false b c = refl

module _ {Event : Type 0} where
  -- Whether `p` holds of the log at some time while `events` are added to `pre` one by one.
  unfoldable pub ever : (List Event → Bool) → List Event → List Event → Bool
  ever p pre [] = false
  ever p pre (ev ∷ events) = p (pre ++ ev ∷ []) || ever p (pre ++ ev ∷ []) events

  -- Some log that the test went through, `pre` with a part of the events, has `p`.
  unfoldable pub SomeTime : (List Event → Bool) → List Event → List Event → Type 0
  SomeTime p pre events =
      (xs : List Event) × (ev : Event) × (ys : List Event) × (events ≡ xs ++ ev ∷ ys)
      × (p (pre ++ xs ++ ev ∷ []) ≡ true)

  pub ever-SomeTime :
      (p : List Event → Bool) (pre events : List Event)
      → ever p pre events ≡ true
      → SomeTime p pre events
  unfolding ever SomeTime
  ever-SomeTime p pre [] h = absurd (ground arith)
  ever-SomeTime p pre (ev ∷ events) h = elim (Bool-cases (p (pre ++ ev ∷ []))) [
    | inl now ↦ ([], ev, events, refl, rw (append-nil pre) now)
    | inr later ↦
        let (x, y, z, e, q) = ever-SomeTime p (pre ++ ev ∷ []) events (ground arith) in
        (
          ev ∷ x,
          y,
          z,
          ap (λ r. ev ∷ r) e,
          ap (λ l. p (l ++ y ∷ [])) (sym (append_assoc pre (ev ∷ []) x)) ∙ q,
        )
  ]

  pub SomeTime-ever :
      (p : List Event → Bool) (pre events : List Event)
      → SomeTime p pre events
      → ever p pre events ≡ true
  unfolding ever SomeTime
  SomeTime-ever p pre [] ([], ev, ys, e, h) = absurd cc
  SomeTime-ever p pre [] (x ∷ xs, ev, ys, e, h) = absurd cc
  SomeTime-ever p pre (v ∷ events) ([], ev, ys, e, h) =
      let same : v ≡ ev = cc in
      let now : p (pre ++ v ∷ []) ≡ true =
        ap (λ w. p (pre ++ w ∷ [])) same
        ∙ (ap (λ l. p (l ++ ev ∷ [])) (sym (append-nil pre)) ∙ h) in
      ground (arith, now)
  SomeTime-ever p pre (v ∷ events) (x ∷ xs, ev, ys, e, h) =
      let same : v ≡ x = cc in
      let tail : events ≡ xs ++ ev ∷ ys = cc in
      let later : p (pre ++ v ∷ [] ++ xs ++ ev ∷ []) ≡ true =
        ap (λ l. p (l ++ ev ∷ [])) (append_assoc pre (v ∷ []) xs)
        ∙ (ap (λ w. p (pre ++ (w ∷ xs) ++ ev ∷ [])) same ∙ h) in
      let rest = SomeTime-ever p (pre ++ v ∷ []) events (xs, ev, ys, tail, later) in
      ground (arith, rest)

  pub first_matching-append :
      (m : Event → Bool) (log : List Event) (ev : Event)
      → seen m log ≡ true
      → seen m (log ++ ev ∷ []) ≡ true
  unfolding seen first_matching
  first_matching-append m [] ev h = absurd (ground arith)
  first_matching-append m (v ∷ log) ev h = ground (arith, first_matching-append m log ev)

  -- What `Evaluate` waits for, as a property of the log alone: the anchor is in it, if there is
  -- one, and the predicate holds of it.
  unfoldable pub holds : (List Event → CallResult) → Option (Event → Bool) → List Event → Bool
  holds predicate none log = is_true (predicate log)
  holds predicate (some m) log = seen m log && is_true (predicate log)

  -- The subscriber over the events of a test: the expectation, and whether it has fired.
  unfoldable pub terminate_watch :
      List Event → List Event → Eventually Event → Bool → Eventually Event × Bool
  terminate_watch pre [] e fired = (e, fired)
  terminate_watch pre (ev ∷ events) e fired =
      let log = pre ++ ev ∷ [] in
      let (e', v, why) = eventually_evaluate log e in
      terminate_watch log events e' (fired || passes v)

  -- An anchor that is remembered as reached is in the log.
  unfoldable pub Reached : Option (Event → Bool) → Bool → List Event → Type 0
  Reached none reached log = Unit
  Reached (some m) reached log = reached ≡ true → seen m log ≡ true

  abbrev state : (List Event → CallResult) → Option (Event → Bool) → Bool → Bool → Eventually Event
  state predicate anchor satisfied reached = record {
    predicate = predicate;
    anchor = anchor;
    satisfied = satisfied;
    anchor_reached = reached;
  }

  called :
      (predicate : List Event → CallResult) (anchor : Option (Event → Bool)) (reached : Bool)
      (res : CallResult)
      → (eventually_call res (state predicate anchor false reached)).0
        ≡ state predicate anchor (is_true res) reached
  called predicate anchor reached (raised err) = refl
  called predicate anchor reached (value true) = refl
  called predicate anchor reached (value false) = refl

  still :
      (anchor : Option (Event → Bool)) (reached : Bool) (pre : List Event) (ev : Event)
      → Reached anchor reached pre
      → Reached anchor reached (pre ++ ev ∷ [])
  unfolding Reached
  still none reached pre ev inv = tt
  still (some m) reached pre ev inv = λ e. first_matching-append m pre ev (inv e)

  unreached-Reached :
      (anchor : Option (Event → Bool)) (reached : Bool)
      → reached ≡ false
      → Reached anchor reached []
  unfolding Reached
  unreached-Reached none reached e = tt
  unreached-Reached (some m) reached e = λ r. absurd cc

  evaluate_step :
      (predicate : List Event → CallResult) (anchor : Option (Event → Bool)) (sat reached : Bool)
      (log : List Event)
      → Reached anchor reached log
      → (now : Bool) × ((eventually_evaluate log (state predicate anchor sat reached)).0
          ≡ state predicate anchor (sat || holds predicate anchor log) now)
        × Reached anchor now log
  unfolding eventually_evaluate holds Reached
  evaluate_step predicate anchor true reached log inv = (reached, refl, inv)
  evaluate_step predicate none false reached log inv =
      (reached, called predicate none reached (predicate log), tt)
  evaluate_step predicate (some m) false true log inv =
      let passed = inv refl in
      (true, rw (passed) (called predicate (some m) true (predicate log)), λ e. passed)
  evaluate_step predicate (some m) false false log inv = elim (Bool-cases (seen m log)) [
    | inl now ↦ (true, rw (now) (called predicate (some m) true (predicate log)), λ e. now)
    | inr later ↦ (false, rw (later) refl, λ e. absurd cc)
  ]

  -- A verdict is a pass exactly if the expectation is satisfied.
  passes-satisfied :
      (log : List Event) (e : Eventually Event)
      → passes (eventually_evaluate log e).1 ≡ (eventually_evaluate log e).0.satisfied
  unfolding eventually_evaluate
  passes-satisfied log e = ground arith

  watch-ever :
      (predicate : List Event → CallResult) (anchor : Option (Event → Bool)) (sat reached : Bool)
      (pre events : List Event)
      → Reached anchor reached pre
      → (terminate_watch pre events (state predicate anchor sat reached) sat).1
        ≡ sat || ever (holds predicate anchor) pre events
  unfolding terminate_watch ever
  watch-ever predicate anchor sat reached pre [] inv = ground arith
  watch-ever predicate anchor sat reached pre (ev ∷ events) inv =
      let log = pre ++ ev ∷ [] in
      let old = state predicate anchor sat reached in
      let (now, eq, inv') =
        evaluate_step predicate anchor sat reached log (still anchor reached pre ev inv) in
      let sat' = sat || holds predicate anchor log in
      let after : (eventually_evaluate log old).0.satisfied ≡ sat' = ap (λ e. e.satisfied) eq in
      let fired : sat || passes (eventually_evaluate log old).1 ≡ sat' =
        ground (arith, passes-satisfied log old, after) in
      let rest = watch-ever predicate anchor sat' now log events inv' in
      ap (λ e. (terminate_watch log events e (sat || passes (eventually_evaluate log old).1)).1) eq
      ∙ (ap (λ b. (terminate_watch log events (state predicate anchor sat' now) b).1) fired
          ∙ (rest
              ∙ or_assoc sat (holds predicate anchor log)
                  (ever (holds predicate anchor) log events)))

  -- A fresh eventually() as terminate_when, on a log that is empty at first, fires exactly if after
  -- some event its anchor, if it has one, was in the log and its predicate held.
  pub terminate_watch_iff :
      (e : Eventually Event) (events : List Event)
      → e.satisfied ≡ false
      → e.anchor_reached ≡ false
      → (terminate_watch [] events e false).1 ≡ true
        ↔ SomeTime (holds e.predicate e.anchor) [] events
  terminate_watch_iff e events fresh unreached =
      let start : e ≡ state e.predicate e.anchor false e.anchor_reached =
        ap (λ b. state e.predicate e.anchor b e.anchor_reached) fresh in
      let eq =
        ap (λ x. (terminate_watch [] events x false).1) start
        ∙ watch-ever e.predicate e.anchor false e.anchor_reached [] events
            (unreached-Reached e.anchor e.anchor_reached unreached) in
      (
        λ h. ever-SomeTime (holds e.predicate e.anchor) [] events (ground (arith, eq)),
        λ h. ground (arith, eq, SomeTime-ever (holds e.predicate e.anchor) [] events h),
      )
