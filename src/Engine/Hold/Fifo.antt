-- ===== src/Engine/Hold/Fifo.antt =====
-- internal/engine/hold.go: the order of the answers.
use mathlib.Core.List.{append_assoc, append-nil}
use faultbox.Base.{◌≡◌, sym, ap, ◌∙◌, List, [], ◌∷◌, ◌++◌}
use faultbox.Engine.Hold.{
  HoldQueue, HoldOp, enqueue_op, release_one_op, release_all_op, release_by_index_op, close_op,
  new_hold_queue, enqueue, release_one, release_all, close, step, run,
}
use faultbox.Engine.Hold.Conserve.{
  answered, known, arrived, ClosedEmpty, new_hold_queue-ClosedEmpty, enqueue-known,
  release_one-known, release_all-known, close-known, step-ClosedEmpty,
}

-- No call releases by index.
unfoldable pub InOrder : List HoldOp → Type 0
InOrder [] = Unit
InOrder (release_by_index_op i d ∷ ops) = ⊥
InOrder (op ∷ ops) = InOrder ops

run-InOrder :
    (q : HoldQueue) (ops : List HoldOp)
    → ClosedEmpty q
    → InOrder ops
    → known (run q ops) ≡ known q ++ arrived ops
unfolding run arrived InOrder step
run-InOrder q [] inv ordered = sym (append-nil (known q))
run-InOrder q (enqueue_op h ∷ ops) inv ordered =
    run-InOrder (enqueue h q) ops (step-ClosedEmpty q (enqueue_op h) inv) ordered
    ∙ ap (λ r. r ++ arrived ops) (enqueue-known h q inv)
    ∙ append_assoc (known q) (h ∷ []) (arrived ops)
run-InOrder q (release_one_op d ∷ ops) inv ordered =
    run-InOrder (release_one d q).0 ops (step-ClosedEmpty q (release_one_op d) inv) ordered
    ∙ ap (λ r. r ++ arrived ops) (release_one-known d q)
run-InOrder q (release_all_op d ∷ ops) inv ordered =
    run-InOrder (release_all d q) ops (step-ClosedEmpty q (release_all_op d) inv) ordered
    ∙ ap (λ r. r ++ arrived ops) (release_all-known d q)
run-InOrder q (release_by_index_op i d ∷ ops) inv ordered = absurd ordered
run-InOrder q (close_op ∷ ops) inv ordered =
    run-InOrder (close q) ops (step-ClosedEmpty q close_op inv) ordered
    ∙ ap (λ r. r ++ arrived ops) (close-known q)

-- When no call releases by index, notifications are answered in the order in which they were
-- enqueued: the answers so far, followed by the held ones, are the arrivals in their order.
pub run-fifo : (ops : List HoldOp) → InOrder ops → known (run new_hold_queue ops) ≡ arrived ops
unfolding known answered new_hold_queue
run-fifo ops ordered = run-InOrder new_hold_queue ops new_hold_queue-ClosedEmpty ordered
