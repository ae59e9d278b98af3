-- ===== src/Engine/Hold.antt =====
-- internal/engine/hold.go: the queue of held syscall notifications. The mutex makes every method
-- one step on the queue's state. A send on a notification's channel (which has room for one) is
-- an entry of `sent`, in the order of the sends; the notification stands for its channel.
pub mod Conserve
pub mod Fifo
use mathlib.Core.List.{foldl}
use faultbox.Base.{
  ℕ, zero, suc, ◌≡◌, Bool, true, false, not, ◌&&◌, Option, none, some, List, [], ◌∷◌, ◌++◌, map,
  String, length, get_elem?, if◌then◌else◌, ltb, take, drop,
}
use faultbox.Base.Int.{ℤ, pos, negsuc, leb_ℤ, ltb_ℤ}

pub record HoldDecision : Type 0 where
  pub allow : Bool
  pub errno : ℤ

pub record HeldNotif : Type 0 where
  pub req_id : ℕ
  pub listener_fd : ℤ
  pub syscall_name : String
  pub pid : ℕ
  pub path : String

pub record HoldQueue : Type 0 where
  pub pending : List HeldNotif
  pub closed : Bool
  pub sent : List (HeldNotif × HoldDecision)

abbrev pub let_through : HoldDecision
let_through = record { allow = true; errno = pos 0 }

-- The loops that send one decision to every notification of a list.
abbrev pub send_all : HoldDecision → List HeldNotif → List (HeldNotif × HoldDecision)
send_all d = map (λ h. (h, d))

unfoldable pub new_hold_queue : HoldQueue
new_hold_queue = record { pending = []; closed = false; sent = [] }

unfoldable pub enqueue : HeldNotif → HoldQueue → HoldQueue
enqueue h q =
    if q.closed
    then record q { sent = q.sent ++ (h, let_through) ∷ [] }
    else record q { pending = q.pending ++ h ∷ [] }

abbrev release_first : List HeldNotif → HoldDecision → HoldQueue → HoldQueue × Bool
release_first [] d q = (q, false)
release_first (h ∷ hs) d q = (record q { pending = hs; sent = q.sent ++ (h, d) ∷ [] }, true)

unfoldable pub release_one : HoldDecision → HoldQueue → HoldQueue × Bool
release_one d q = release_first q.pending d q

unfoldable pub release_all : HoldDecision → HoldQueue → HoldQueue
release_all d q = record q { pending = []; sent = q.sent ++ send_all d q.pending }

-- `h := q.pending[i]` and what is left, where the index is within bounds.
abbrev release_at : Option HeldNotif → ℕ → HoldDecision → HoldQueue → HoldQueue × Bool
release_at none i d q = (q, false)
release_at (some h) i d q = (
  record q { pending = take i q.pending ++ drop (suc i) q.pending; sent = q.sent ++ (h, d) ∷ [] },
  true,
)

unfoldable pub release_by_index : ℤ → HoldDecision → HoldQueue → HoldQueue × Bool
release_by_index (negsuc i) d q = (q, false)
release_by_index (pos i) d q = release_at (get_elem? q.pending i) i d q

unfoldable pub pending_snapshot : HoldQueue → List HeldNotif
pending_snapshot q = q.pending

unfoldable pub len : HoldQueue → ℕ
len q = length q.pending

unfoldable pub close : HoldQueue → HoldQueue
close q =
    if q.closed
    then q
    else record { pending = []; closed = true; sent = q.sent ++ send_all let_through q.pending }

abbrev stop_or : {Err : Type 0} → Option (Option Err) → Option Err → Option (Option Err)
stop_or rest none = rest
stop_or rest (some e) = some (some e)

-- The loop of `Wait` over what it sees each time it is woken: the queue, and the context's error at
-- the test in the loop and at the test after it. `none`: still waiting after the last wake-up.
unfoldable pub wait :
    {Err : Type 0} → ℤ → List (HoldQueue × Option Err × Option Err) → Option (Option Err)
unfolding len
wait count [] = none
wait count ((q, in_loop, after_loop) ∷ more) =
    let rest = wait count more in
    if ltb_ℤ (pos (len q)) count && not q.closed then stop_or rest in_loop else some after_loop

-- A call of one of the methods that change the queue.
pub data HoldOp : Type 0 where
  enqueue_op : HeldNotif → HoldOp
  release_one_op release_all_op : HoldDecision → HoldOp
  release_by_index_op : ℤ → HoldDecision → HoldOp
  close_op : HoldOp

unfoldable pub step : HoldQueue → HoldOp → HoldQueue
step q (enqueue_op h) = enqueue h q
step q (release_one_op d) = (release_one d q).0
step q (release_all_op d) = release_all d q
step q (release_by_index_op i d) = (release_by_index i d q).0
step q close_op = close q

unfoldable pub run : HoldQueue → List HoldOp → HoldQueue
run = foldl step
