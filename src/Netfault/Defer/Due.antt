-- ===== src/Netfault/Defer/Due.antt =====
-- internal/netfault/defer.go: the loop of `run`, which goes round again after each packet that it
-- releases.
use mathlib.Core.Path.{subst}
use faultbox.Base.{
  ℕ, zero, suc, ◌≤◌, ◌<◌, ◌≡◌, refl, sym, ap, Bool, true, false, Option, none, some, List, [], ◌∷◌,
  ◌++◌, leb, length, All, arith, Bool-cases, inl, inr,
}
use faultbox.Netfault.Defer.{
  Deferred, DeferQueue, DeferOp, less, new_defer_queue, run_round, run, option_list,
}
use faultbox.Netfault.Defer.Order.{Ordered, WellFormed, run-WellFormed}
use faultbox.Netfault.Defer.Released.{StoppedEmpty, run-StoppedEmpty}

module _ {F : Type 0} where
  -- Some rounds of the loop at one time, and what they release.
  unfoldable pub rounds : ℕ → ℕ → DeferQueue F → DeferQueue F × List (Deferred F)
  rounds zero now q = (q, [])
  rounds (suc n) now q =
      let (q', x) = run_round now q in
      let (q'', rest) = rounds n now q' in (q'', option_list x ++ rest)

  abbrev pub IsDue : ℕ → Deferred F → Type 0
  IsDue now x = x.deadline ≤ now

  abbrev pub Waits : ℕ → Deferred F → Type 0
  Waits now x = now < x.deadline

  later-Waits :
      (now : ℕ) (x : Deferred F) (ys : List (Deferred F))
      → Waits now x
      → All (λ y. less x y ≡ true) ys
      → All (Waits now) ys
  unfolding less
  later-Waits now x [] w h = tt
  later-Waits now x (y ∷ ys) w h = (ground (arith, w, h.0), later-Waits now x ys w h.1)

  unfoldable pub Drained : ℕ → List (Deferred F) → DeferQueue F × List (Deferred F) → Type 0
  Drained now waiting r = (r.1 ++ r.0.h ≡ waiting) × All (IsDue now) r.1 × All (Waits now) r.0.h

  rounds-idle :
      (n now : ℕ) (h : List (Deferred F)) (seq : ℕ)
      → All (Waits now) h
      → Drained now h (rounds n now (record { h = h; seq = seq; stopped = false }))
  unfolding Drained rounds run_round
  rounds-idle zero now h seq w = (refl, tt, w)
  rounds-idle (suc n) now [] seq w = rounds-idle n now [] seq w
  rounds-idle (suc n) now (x ∷ xs) seq w =
      let early : leb x.deadline now ≡ false = ground (arith, w.0) in
      rw (early) (rounds-idle n now (x ∷ xs) seq w)

  -- A round, and then others.
  abbrev joined : ℕ → ℕ → DeferQueue F × Option (Deferred F) → DeferQueue F × List (Deferred F)
  joined n now r = ((rounds n now r.0).0, option_list r.1 ++ (rounds n now r.0).1)

  rounds-Drained :
      (now : ℕ) (h : List (Deferred F)) (seq : ℕ)
      → Ordered h
      → Drained now h (rounds (length h) now (record { h = h; seq = seq; stopped = false }))
  unfolding Drained rounds run_round Ordered
  rounds-Drained now [] seq ord = (refl, tt, tt)
  rounds-Drained now (x ∷ xs) seq ord =
      let q : DeferQueue F = record { h = x ∷ xs; seq = seq; stopped = false } in
      let q' : DeferQueue F = record { h = xs; seq = seq; stopped = false } in
      elim (Bool-cases (leb x.deadline now)) [
        | inl now_due ↦
            let rest = rounds-Drained now xs seq ord.1 in
            let fired : run_round now q ≡ (q', some x) = rw (now_due) refl in
            subst (λ r. Drained now (x ∷ xs) (joined (length xs) now r)) (sym fired)
              (ap (λ t. x ∷ t) rest.0, (ground (arith, now_due), rest.1), rest.2)
        | inr early ↦
            let w : Waits now x = ground (arith, early) in
            let idle : run_round now q ≡ (q, none) = rw (early) refl in
            subst (λ r. Drained now (x ∷ xs) (joined (length xs) now r)) (sym idle)
              (rounds-idle (length xs) now (x ∷ xs) seq (w, later-Waits now x xs w ord.0))
      ]

  Drained-waiting :
      (now : ℕ) (h : List (Deferred F)) (seq : ℕ) (stopped : Bool)
      → Ordered h
      → (stopped ≡ true → h ≡ [])
      → Drained now h (rounds (length h) now (record { h = h; seq = seq; stopped = stopped }))
  Drained-waiting now h seq false ord empty = rounds-Drained now h seq ord
  Drained-waiting now [] seq true ord empty = unfold Drained rounds in (refl, tt, tt)
  Drained-waiting now (x ∷ xs) seq true ord empty =
      let none_waiting : x ∷ xs ≡ [] = empty refl in absurd cc

  -- The loop gets to every due packet: after any calls of a new defer queue, as many rounds as there
  -- are waiting packets release, in their order, exactly those that are due, and leave the others.
  pub rounds-IsDue :
      (ops : List (DeferOp F)) (now : ℕ)
      → ((rounds (length (run ops new_defer_queue).0.h) now (run ops new_defer_queue).0).1
            ++ (rounds (length (run ops new_defer_queue).0.h) now (run ops new_defer_queue).0).0.h
          ≡ (run ops new_defer_queue).0.h)
        × All
            (IsDue now)
            (rounds (length (run ops new_defer_queue).0.h) now (run ops new_defer_queue).0).1
        × All
            (Waits now)
            (rounds (length (run ops new_defer_queue).0.h) now (run ops new_defer_queue).0).0.h
  unfolding new_defer_queue
  rounds-IsDue ops now =
      let q : DeferQueue F = (run ops new_defer_queue).0 in
      let ordered : WellFormed q =
        run-WellFormed ops new_defer_queue (unfold WellFormed Ordered in (tt, tt)) in
      let empty : StoppedEmpty q =
        run-StoppedEmpty ops new_defer_queue (unfold StoppedEmpty in λ e. refl) in
      let drained : Drained now q.h (rounds (length q.h) now q) =
        Drained-waiting now q.h q.seq q.stopped (unfold WellFormed in ordered.0)
          (unfold StoppedEmpty in empty) in
      unfold Drained in drained
