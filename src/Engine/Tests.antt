-- ===== src/Engine/Tests.antt =====
-- Runs of the hold queue, and the theorems at concrete calls.
use mathlib.Core.List.{Perm}
use faultbox.Base.{ℕ, ◌+◌, ◌≡◌, refl, false, [], ◌∷◌, ◌++◌, List}
use faultbox.Base.Int.{pos}
use faultbox.Engine.Hold.{
  HeldNotif, HoldDecision, HoldOp, enqueue_op, release_one_op, release_by_index_op, close_op,
  let_through, new_hold_queue, run, step, enqueue, release_by_index, close,
}
use faultbox.Engine.Hold.Conserve.{run-conserves, closed-answers_all, known, answered, arrived}
use faultbox.Engine.Hold.Fifo.{run-fifo, InOrder}

abbrev held : ℕ → HeldNotif
held n = record {
  req_id = n;
  listener_fd = pos 7;
  syscall_name = "fsync";
  pid = 100 + n;
  path = "/data/wal";
}

abbrev denied : HoldDecision
denied = record { allow = false; errno = pos 5 }

abbrev three_held : List HoldOp
three_held = enqueue_op (held 1) ∷ enqueue_op (held 2) ∷ enqueue_op (held 3) ∷ []

released_in_the_middle :
    (run new_hold_queue (three_held ++ release_by_index_op (pos 1) denied ∷ [])).pending
    ≡ held 1 ∷ held 3 ∷ []
unfolding run step enqueue release_by_index new_hold_queue
released_in_the_middle = refl

out_of_bounds : (release_by_index (pos 3) denied (run new_hold_queue three_held)).1 ≡ false
unfolding run step enqueue release_by_index new_hold_queue
out_of_bounds = refl

let_through_when_closed :
    (run new_hold_queue (close_op ∷ enqueue_op (held 1) ∷ [])).sent ≡ (held 1, let_through) ∷ []
unfolding run step enqueue close new_hold_queue
let_through_when_closed = refl

run-conserves_example :
    Perm
      (known (run new_hold_queue (three_held ++ release_by_index_op (pos 1) denied ∷ [])))
      (arrived (three_held ++ release_by_index_op (pos 1) denied ∷ []))
run-conserves_example = run-conserves (three_held ++ release_by_index_op (pos 1) denied ∷ [])

closed-answers_all_example :
    ((run new_hold_queue (three_held ++ close_op ∷ enqueue_op (held 4) ∷ [])).pending ≡ [])
    × Perm
        (answered (run new_hold_queue (three_held ++ close_op ∷ enqueue_op (held 4) ∷ [])))
        (arrived (three_held ++ enqueue_op (held 4) ∷ []))
closed-answers_all_example = closed-answers_all three_held (enqueue_op (held 4) ∷ [])

run-fifo_example :
    known (run new_hold_queue (three_held ++ release_one_op denied ∷ []))
    ≡ arrived (three_held ++ release_one_op denied ∷ [])
run-fifo_example = run-fifo (three_held ++ release_one_op denied ∷ []) (unfold InOrder in tt)
