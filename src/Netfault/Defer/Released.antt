-- ===== src/Netfault/Defer/Released.antt =====
-- internal/netfault/defer.go: which packets the queue releases.
use mathlib.Core.List.{Perm, append_assoc, append-nil, perm_append_singleton}
use mathlib.Core.List.Perm
use mathlib.Core.Path.{subst}
use faultbox.Base.{
  ℕ, ◌+◌, ◌≡◌, refl, Bool, true, false, List, [], ◌∷◌, ◌++◌, leb, if◌then◌else◌, arith, Bool-cases,
  inl, inr, ap, ◌∙◌, sym,
}
use faultbox.Netfault.Defer.{
  Deferred, DeferQueue, DeferOp, schedule_op, round_op, stop_op, new_defer_queue, schedule,
  run_round, stop, step, run, option_list,
}
use faultbox.Netfault.Defer.Order.{push-Perm}

module _ {F : Type 0} where
  -- The packet that a call adds: one that is scheduled before the queue is stopped.
  unfoldable pub accepted : DeferOp F → DeferQueue F → List (Deferred F)
  accepted (schedule_op now d fn) q =
      if q.stopped then [] else record { deadline = now + d; seq = q.seq + 1; fn = fn } ∷ []
  accepted (round_op now) q = []
  accepted stop_op q = []

  unfoldable pub accepted_all : List (DeferOp F) → DeferQueue F → List (Deferred F)
  accepted_all [] q = []
  accepted_all (op ∷ ops) q = accepted op q ++ accepted_all ops (step op q).0

  Perm_of_eq : {xs ys : List (Deferred F)} → xs ≡ ys → Perm xs ys
  Perm_of_eq {xs} e = subst (λ l. Perm xs l) e (Perm.refl xs)

  round-Perm :
      (now : ℕ) (waiting : List (Deferred F)) (n : ℕ) (stopped : Bool)
      → let (q, x) = run_round now (record { h = waiting; seq = n; stopped = stopped }) in
        option_list x ++ q.h ≡ waiting
  unfolding run_round
  round-Perm now waiting n true = refl
  round-Perm now [] n false = refl
  round-Perm now (y ∷ ys) n false = elim (Bool-cases (leb y.deadline now)) [
    | inl due ↦ rw (due) refl
    | inr early ↦ rw (early) refl
  ]

  step-Perm :
      (op : DeferOp F) (q : DeferQueue F)
      → Perm ((step op q).1 ++ (step op q).0.h) (q.h ++ accepted op q)
  unfolding step accepted schedule stop
  step-Perm (schedule_op now d fn) q = elim (Bool-cases q.stopped) [
    | inl ended ↦ rw (ended) (Perm_of_eq (sym (append-nil q.h)))
    | inr running ↦
        let x : Deferred F = record { deadline = now + d; seq = q.seq + 1; fn = fn } in
        rw (running) (Perm.trans (push-Perm x q.h) (Perm.symm (perm_append_singleton x q.h)))
  ]
  step-Perm (round_op now) q =
      Perm_of_eq (round-Perm now q.h q.seq q.stopped ∙ sym (append-nil q.h))
  step-Perm stop_op q = elim (Bool-cases q.stopped) [
    | inl ended ↦ rw (ended) (Perm_of_eq (sym (append-nil q.h)))
    | inr running ↦ rw (running) (Perm.refl (q.h ++ []))
  ]

  run-Perm :
      (ops : List (DeferOp F)) (q : DeferQueue F)
      → Perm ((run ops q).1 ++ (run ops q).0.h) (q.h ++ accepted_all ops q)
  unfolding run accepted_all
  run-Perm [] q = Perm_of_eq (sym (append-nil q.h))
  run-Perm (op ∷ ops) q =
      let (q', first) = step op q in
      let (q'', rest) = run ops q' in
      Perm.trans (Perm_of_eq (append_assoc first rest q''.h)) (
        Perm.trans (Perm.append_left first (run-Perm ops q')) (
          Perm.trans (Perm_of_eq (sym (append_assoc first q'.h (accepted_all ops q')))) (
            Perm.trans (Perm.append_right (accepted_all ops q') (step-Perm op q))
              (Perm_of_eq (append_assoc q.h (accepted op q) (accepted_all ops q'))))))

  -- A stopped queue has nothing waiting.
  unfoldable pub StoppedEmpty : DeferQueue F → Type 0
  StoppedEmpty q = q.stopped ≡ true → q.h ≡ []

  step-StoppedEmpty :
      (op : DeferOp F) (q : DeferQueue F) → StoppedEmpty q → StoppedEmpty (step op q).0
  unfolding StoppedEmpty step schedule stop run_round
  step-StoppedEmpty (schedule_op now d fn) q inv = ground arith
  step-StoppedEmpty (round_op now) q inv = ground arith
  step-StoppedEmpty stop_op q inv = ground arith

  pub run-StoppedEmpty :
      (ops : List (DeferOp F)) (q : DeferQueue F) → StoppedEmpty q → StoppedEmpty (run ops q).0
  unfolding run
  run-StoppedEmpty [] q inv = inv
  run-StoppedEmpty (op ∷ ops) q inv =
      run-StoppedEmpty ops (step op q).0 (step-StoppedEmpty op q inv)

  stop_all : (q : DeferQueue F) → StoppedEmpty q → (stop q).1 ≡ q.h
  unfolding StoppedEmpty stop
  stop_all q inv = elim (Bool-cases q.stopped) [
    | inl ended ↦ rw (ended) (sym (inv ended))
    | inr running ↦ rw (running) refl
  ]

  -- After any calls of a new queue, what was released and what still waits are together the packets
  -- that were accepted, each once.
  pub run-accepted :
      (ops : List (DeferOp F))
      → Perm
          ((run ops new_defer_queue).1 ++ (run ops new_defer_queue).0.h)
          (accepted_all ops new_defer_queue)
  unfolding new_defer_queue
  run-accepted ops = run-Perm ops new_defer_queue

  -- Stopping flushes: after any calls of a new queue, what was released before and what `stop`
  -- releases are together all the packets that were accepted, each once.
  pub stop-flushes :
      (ops : List (DeferOp F))
      → Perm
          ((run ops new_defer_queue).1 ++ (stop (run ops new_defer_queue).0).1)
          (accepted_all ops new_defer_queue)
  unfolding new_defer_queue StoppedEmpty
  stop-flushes ops =
      let (q, released) = run ops new_defer_queue in
      let all_out : (stop q).1 ≡ q.h =
        stop_all q (run-StoppedEmpty ops new_defer_queue (λ e. refl)) in
      Perm.trans (Perm_of_eq (ap (λ l. released ++ l) all_out)) (run-accepted ops)
