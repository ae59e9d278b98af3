-- ===== src/Netfault/Defer/Order.antt =====
-- internal/netfault/defer.go: the order in which the queue releases packets.
use mathlib.Core.List.{Perm}
use mathlib.Core.List.Perm
use mathlib.Core.Path.{subst}
use faultbox.Base.{
  ℕ, ◌+◌, ◌≤◌, ◌<◌, ◌≡◌, Bool, true, false, some, List, [], ◌∷◌, leb, arith, Bool-cases, inl, inr,
  All,
}
use faultbox.Netfault.Defer.{
  Deferred, DeferQueue, DeferOp, schedule_op, round_op, stop_op, less, push, new_defer_queue,
  schedule, run_round, stop, step, run,
}

module _ {F : Type 0} where
  -- Every packet of the second list comes after the first one.
  unfoldable pub Ordered : List (Deferred F) → Type 0
  Ordered [] = Unit
  Ordered (x ∷ xs) = All (λ y. less x y ≡ true) xs × Ordered xs

  -- In the order of release, with the numbers given out so far.
  unfoldable pub WellFormed : DeferQueue F → Type 0
  WellFormed q = Ordered q.h × All (λ y. y.seq ≤ q.seq) q.h

  less_trans : (x y z : Deferred F) → less x y ≡ true → less y z ≡ true → less x z ≡ true
  unfolding less
  less_trans x y z h k = ground arith

  -- A new packet has the largest number, so it is before or after each of the others.
  less_total : (x y : Deferred F) → y.seq < x.seq → less y x ≡ false → less x y ≡ true
  unfolding less
  less_total x y h k = ground arith

  All-after :
      (x y : Deferred F) (ys : List (Deferred F))
      → less x y ≡ true
      → All (λ z. less y z ≡ true) ys
      → All (λ z. less x z ≡ true) ys
  All-after x y [] h all = tt
  All-after x y (z ∷ zs) h all = (less_trans x y z h all.0, All-after x y zs h all.1)

  All-push :
      (P : Deferred F → Type 0) (x : Deferred F) (ys : List (Deferred F))
      → P x
      → All P ys
      → All P (push x ys)
  unfolding push
  All-push P x [] p all = (p, tt)
  All-push P x (y ∷ ys) p all = elim (Bool-cases (less y x)) [
    | inl after ↦ rw (after) ((all.0, All-push P x ys p all.1))
    | inr before ↦ rw (before) ((p, all))
  ]

  push-Ordered :
      (x : Deferred F) (ys : List (Deferred F))
      → All (λ y. y.seq < x.seq) ys
      → Ordered ys
      → Ordered (push x ys)
  unfolding push Ordered
  push-Ordered x [] new ord = (tt, tt)
  push-Ordered x (y ∷ ys) new ord = elim (Bool-cases (less y x)) [
    | inl after ↦
        rw (after)
          ((All-push (λ z. less y z ≡ true) x ys after ord.0, push-Ordered x ys new.1 ord.1))
    | inr before ↦
        let first = less_total x y new.0 before in
        rw (before) (((first, All-after x y ys first ord.0), ord))
  ]

  pub push-Perm : (x : Deferred F) (ys : List (Deferred F)) → Perm (push x ys) (x ∷ ys)
  unfolding push
  push-Perm x [] = Perm.refl (x ∷ [])
  push-Perm x (y ∷ ys) = elim (Bool-cases (less y x)) [
    | inl after ↦ rw (after) (Perm.trans (Perm.cons y (push-Perm x ys)) (Perm.swap x y ys))
    | inr before ↦ rw (before) (Perm.refl (x ∷ y ∷ ys))
  ]

  All-weaken :
      (n m : ℕ) (ys : List (Deferred F)) → n ≤ m → All (λ y. y.seq ≤ n) ys → All (λ y. y.seq ≤ m) ys
  All-weaken n m [] le all = tt
  All-weaken n m (y ∷ ys) le all = (omega (arith, all.0, le), All-weaken n m ys le all.1)

  All-below :
      (n : ℕ) (ys : List (Deferred F)) → All (λ y. y.seq ≤ n) ys → All (λ y. y.seq < n + 1) ys
  All-below n [] all = tt
  All-below n (y ∷ ys) all = (omega (arith, all.0), All-below n ys all.1)

  -- What one round of the loop keeps, and what it says of a packet that it releases.
  RoundOk : ℕ → DeferQueue F → Type 0
  RoundOk now q =
      WellFormed (run_round now q).0
      × ((x : Deferred F)
          → (run_round now q).1 ≡ some x
          → (x.deadline ≤ now) × All (λ y. less x y ≡ true) (run_round now q).0.h)

  round-RoundOk :
      (now : ℕ) (waiting : List (Deferred F)) (n : ℕ) (stopped : Bool)
      → WellFormed (record { h = waiting; seq = n; stopped = stopped })
      → RoundOk now (record { h = waiting; seq = n; stopped = stopped })
  unfolding RoundOk WellFormed Ordered run_round
  round-RoundOk now waiting n true wf = (wf, λ x e. absurd cc)
  round-RoundOk now [] n false wf = (wf, λ x e. absurd cc)
  round-RoundOk now (y ∷ ys) n false wf = elim (Bool-cases (leb y.deadline now)) [
    | inl due ↦ rw (due) (
        (
          (wf.0.1, wf.1.1),
          λ x e.
              let same : y ≡ x = cc in
              (ground arith, subst (λ z. All (λ w. less z w ≡ true) ys) same wf.0.0),
        ))
    | inr early ↦ rw (early) ((wf, λ x e. absurd cc))
  ]

  step-WellFormed : (op : DeferOp F) (q : DeferQueue F) → WellFormed q → WellFormed (step op q).0
  unfolding WellFormed step schedule stop Ordered RoundOk
  step-WellFormed (schedule_op now d fn) q wf = elim (Bool-cases q.stopped) [
    | inl ended ↦ rw (ended) wf
    | inr running ↦
        let x : Deferred F = record { deadline = now + d; seq = q.seq + 1; fn = fn } in
        rw (running) (
          (
            push-Ordered x q.h (All-below q.seq q.h wf.1) wf.0,
            All-push (λ y. y.seq ≤ q.seq + 1) x q.h (omega arith)
                (All-weaken q.seq (q.seq + 1) q.h (omega arith) wf.1),
          ))
  ]
  step-WellFormed (round_op now) q wf = (round-RoundOk now q.h q.seq q.stopped wf).0
  step-WellFormed stop_op q wf = elim (Bool-cases q.stopped) [
    | inl ended ↦ rw (ended) wf
    | inr running ↦ rw (running) ((tt, tt))
  ]

  pub run-WellFormed :
      (ops : List (DeferOp F)) (q : DeferQueue F) → WellFormed q → WellFormed (run ops q).0
  unfolding run
  run-WellFormed [] q wf = wf
  run-WellFormed (op ∷ ops) q wf = run-WellFormed ops (step op q).0 (step-WellFormed op q wf)

  -- After any calls of a new queue, a packet that the loop releases is due, and comes before every
  -- packet that is still waiting: an earlier deadline, or the same one and an earlier arrival.
  pub run_round-first :
      (ops : List (DeferOp F)) (now : ℕ) (x : Deferred F)
      → (run_round now (run ops new_defer_queue).0).1 ≡ some x
      → (x.deadline ≤ now)
        × All (λ y. less x y ≡ true) (run_round now (run ops new_defer_queue).0).0.h
  unfolding new_defer_queue WellFormed Ordered RoundOk
  run_round-first ops now x h =
      let (q, rest) = run ops new_defer_queue in
      (round-RoundOk now q.h q.seq q.stopped (run-WellFormed ops new_defer_queue (tt, tt))).1 x h
