-- ===== src/Netfault/Defer.antt =====
-- internal/netfault/defer.go, the first half: packets that wait for a deadline. Times are
-- nanoseconds; the mutex makes each locked part one step. The heap is the list of what it holds
-- in the order in which `heap.Pop` takes it out, so `heap.Push` is an insertion by `Less`. The
-- timer and the wake-up channel only say when the loop of `run` goes round next, so a step of the
-- loop may come at any time.
pub mod Order
pub mod Released
pub mod Due
use mathlib.Core.List.{Perm}
use mathlib.Core.List.Perm
use faultbox.Base.{
  ℕ, zero, suc, ◌+◌, ◌≤◌, ◌<◌, ◌≡◌, refl, Bool, true, false, Option, none, some, List, [], ◌∷◌,
  ◌++◌, map, ltb, leb, ◌==◌, if◌then◌else◌, arith, Bool-cases, inl, inr, All, ap, ◌∙◌, sym,
}

pub record Deferred (F : Type 0) : Type 0 where
  pub deadline : ℕ
  pub seq : ℕ
  pub fn : F

pub record DeferQueue (F : Type 0) : Type 0 where
  pub h : List (Deferred F)
  pub seq : ℕ
  pub stopped : Bool

module _ {F : Type 0} where
  unfoldable pub less : Deferred F → Deferred F → Bool
  less x y = if x.deadline == y.deadline then ltb x.seq y.seq else ltb x.deadline y.deadline

  unfoldable pub push : Deferred F → List (Deferred F) → List (Deferred F)
  push x [] = x ∷ []
  push x (y ∷ ys) = let rest = push x ys in if less y x then y ∷ rest else x ∷ y ∷ ys

  unfoldable pub new_defer_queue : DeferQueue F
  new_defer_queue = record { h = []; seq = 0; stopped = false }

  -- The time is what the clock says under the lock.
  unfoldable pub schedule : ℕ → ℕ → F → DeferQueue F → DeferQueue F × Bool
  schedule now d fn q =
      if q.stopped
      then (q, false)
      else let n = q.seq + 1 in
        (record q { seq = n; h = push (record { deadline = now + d; seq = n; fn = fn }) q.h }, true)

  abbrev fire_head : List (Deferred F) → ℕ → DeferQueue F → DeferQueue F × Option (Deferred F)
  fire_head [] now q = (q, none)
  fire_head (x ∷ xs) now q = if leb x.deadline now then (record q { h = xs }, some x) else (q, none)

  -- One round of the loop of `run`: the packet that it releases, if one is due.
  unfoldable pub run_round : ℕ → DeferQueue F → DeferQueue F × Option (Deferred F)
  run_round now q = if q.stopped then (q, none) else fire_head q.h now q

  -- The packets that `stop` releases.
  unfoldable pub stop : DeferQueue F → DeferQueue F × List (Deferred F)
  stop q = if q.stopped then (q, []) else (record q { stopped = true; h = [] }, q.h)

pub data DeferOp (F : Type 0) : Type 0 where
  schedule_op : ℕ → ℕ → F → DeferOp F
  round_op : ℕ → DeferOp F
  stop_op : DeferOp F

module _ {F : Type 0} where
  abbrev pub option_list : Option (Deferred F) → List (Deferred F)
  option_list none = []
  option_list (some x) = x ∷ []

  -- The queue after a call, and the packets that the call released.
  unfoldable pub step : DeferOp F → DeferQueue F → DeferQueue F × List (Deferred F)
  step (schedule_op now d fn) q = ((schedule now d fn q).0, [])
  step (round_op now) q = let (q', x) = run_round now q in (q', option_list x)
  step stop_op q = stop q

  -- The queue after some calls, and all that they released, in the order of the releases.
  unfoldable pub run : List (DeferOp F) → DeferQueue F → DeferQueue F × List (Deferred F)
  run [] q = (q, [])
  run (op ∷ ops) q =
      let (q', first) = step op q in let (q'', rest) = run ops q' in (q'', first ++ rest)
