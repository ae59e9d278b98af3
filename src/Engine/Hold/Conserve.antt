-- ===== src/Engine/Hold/Conserve.antt =====
-- internal/engine/hold.go: which notifications are answered and which are held.
use mathlib.Core.List.{Perm, append_assoc, append-nil, map-append}
use mathlib.Core.List.Perm
use mathlib.Core.Path.{subst}
use faultbox.Base.{
  ℕ, zero, suc, ◌≡◌, refl, sym, ap, ◌∙◌, true, some, List, [], ◌∷◌, ◌++◌, map, get_elem?, take,
  drop, Bool-cases, Option-cases, inl, inr, arith,
}
use faultbox.Base.Int.{ℤ, pos, negsuc}
use faultbox.Engine.Hold.{
  HoldDecision, HeldNotif, HoldQueue, HoldOp, enqueue_op, release_one_op, release_all_op,
  release_by_index_op, close_op, send_all, let_through, new_hold_queue, enqueue, release_one,
  release_all, release_by_index, close, step, run, release_first,
}

-- The notifications that were answered, in the order of the answers.
unfoldable pub answered : HoldQueue → List HeldNotif
answered q = map (λ s. s.0) q.sent

-- Everything that ever reached the queue: first the answered ones, then those still held.
unfoldable pub known : HoldQueue → List HeldNotif
known q = answered q ++ q.pending

unfoldable pub arrived : List HoldOp → List HeldNotif
arrived [] = []
arrived (enqueue_op h ∷ ops) = h ∷ arrived ops
arrived (op ∷ ops) = arrived ops

-- A closed queue holds nothing.
unfoldable pub ClosedEmpty : HoldQueue → Type 0
ClosedEmpty q = q.closed ≡ true → q.pending ≡ []

map-send_all : (d : HoldDecision) (hs : List HeldNotif) → map (λ s. s.0) (send_all d hs) ≡ hs
map-send_all d [] = refl
map-send_all d (h ∷ hs) = ap (λ r. h ∷ r) (map-send_all d hs)

-- Sending to all that is held moves them from the held to the answered.
send_all-known :
    (sent : List (HeldNotif × HoldDecision)) (d : HoldDecision) (hs : List HeldNotif)
    → map (λ s. s.0) (sent ++ send_all d hs) ++ [] ≡ map (λ s. s.0) sent ++ hs
send_all-known sent d hs =
    append-nil (map (λ s. s.0) (sent ++ send_all d hs))
    ∙ map-append (λ s. s.0) sent (send_all d hs)
    ∙ ap (λ r. map (λ s. s.0) sent ++ r) (map-send_all d hs)

send_one-known :
    (sent : List (HeldNotif × HoldDecision)) (h : HeldNotif) (d : HoldDecision)
    (hs : List HeldNotif)
    → map (λ s. s.0) (sent ++ (h, d) ∷ []) ++ hs ≡ map (λ s. s.0) sent ++ h ∷ hs
send_one-known sent h d hs =
    ap (λ r. r ++ hs) (map-append (λ s. s.0) sent ((h, d) ∷ []))
    ∙ append_assoc (map (λ s. s.0) sent) (h ∷ []) hs

take-drop-Perm :
    (hs : List HeldNotif) (i : ℕ) (h : HeldNotif)
    → get_elem? hs i ≡ some h
    → Perm (h ∷ (take i hs ++ drop (suc i) hs)) hs
take-drop-Perm [] i h e = absurd (cc)
take-drop-Perm (x ∷ hs) zero h e =
    let same : x ≡ h = cc in subst (λ y. Perm (h ∷ hs) (y ∷ hs)) (sym same) (Perm.refl (h ∷ hs))
take-drop-Perm (x ∷ hs) (suc i) h e =
    Perm.trans (Perm.swap x h (take i hs ++ drop (suc i) hs))
      (Perm.cons x (take-drop-Perm hs i h e))

pub new_hold_queue-ClosedEmpty : ClosedEmpty new_hold_queue
unfolding new_hold_queue ClosedEmpty
new_hold_queue-ClosedEmpty e = refl

Perm_of_eq : {xs ys : List HeldNotif} → xs ≡ ys → Perm xs ys
Perm_of_eq {xs} e = subst (λ l. Perm xs l) e (Perm.refl xs)

-- An equation between what a call leaves known and what was known, when the call brings nothing.
unchanged-Perm : {xs ys : List HeldNotif} → xs ≡ ys → Perm xs (ys ++ [])
unchanged-Perm {xs} {ys} e = Perm_of_eq (e ∙ sym (append-nil ys))

pub enqueue-known :
    (h : HeldNotif) (q : HoldQueue) → ClosedEmpty q → known (enqueue h q) ≡ known q ++ h ∷ []
unfolding known answered enqueue ClosedEmpty
enqueue-known h q inv = elim (Bool-cases q.closed) [
  | inl c ↦
      rw (c, inv c)
        (append-nil (map (λ s. s.0) (q.sent ++ (h, let_through) ∷ []))
          ∙ map-append (λ s. s.0) q.sent ((h, let_through) ∷ [])
          ∙ ap (λ r. r ++ h ∷ []) (sym (append-nil (map (λ s. s.0) q.sent))))
  | inr c ↦ rw (c) (sym (append_assoc (map (λ s. s.0) q.sent) q.pending (h ∷ [])))
]

pub release_one-known : (d : HoldDecision) (q : HoldQueue) → known (release_one d q).0 ≡ known q
unfolding known answered release_one
release_one-known d q = pending_case q.pending refl
  where
    pending_case :
        (hs : List HeldNotif)
        → q.pending ≡ hs
        → known (release_first hs d q).0 ≡ map (λ s. s.0) q.sent ++ q.pending
    pending_case [] e = refl
    pending_case (h ∷ hs) e =
        send_one-known q.sent h d hs ∙ ap (λ r. map (λ s. s.0) q.sent ++ r) (sym e)

release_by_index-known :
    (i : ℤ) (d : HoldDecision) (q : HoldQueue) → Perm (known (release_by_index i d q).0) (known q)
unfolding known answered release_by_index
release_by_index-known (negsuc i) d q = Perm.refl (map (λ s. s.0) q.sent ++ q.pending)
release_by_index-known (pos i) d q = elim (Option-cases (get_elem? q.pending i)) [
  | inl e ↦ rw (e) (Perm.refl (map (λ s. s.0) q.sent ++ q.pending))
  | inr (h, e) ↦ rw (e) (
      Perm.trans
        (Perm_of_eq (send_one-known q.sent h d (take i q.pending ++ drop (suc i) q.pending)))
        (Perm.append_left (map (λ s. s.0) q.sent) (take-drop-Perm q.pending i h e)))
]

pub release_all-known : (d : HoldDecision) (q : HoldQueue) → known (release_all d q) ≡ known q
unfolding known answered release_all
release_all-known d q = send_all-known q.sent d q.pending

pub close-known : (q : HoldQueue) → known (close q) ≡ known q
unfolding known answered close
close-known q = elim (Bool-cases q.closed) [
  | inl c ↦ rw (c) refl
  | inr c ↦ rw (c) (send_all-known q.sent let_through q.pending)
]

step-known :
    (q : HoldQueue) (op : HoldOp)
    → ClosedEmpty q
    → Perm (known (step q op)) (known q ++ arrived (op ∷ []))
unfolding step arrived
step-known q (enqueue_op h) inv = Perm_of_eq (enqueue-known h q inv)
step-known q (release_one_op d) inv = unchanged-Perm (release_one-known d q)
step-known q (release_all_op d) inv = unchanged-Perm (release_all-known d q)
step-known q (release_by_index_op i d) inv =
    Perm.trans (release_by_index-known i d q) (unchanged-Perm refl)
step-known q close_op inv = unchanged-Perm (close-known q)

pub step-ClosedEmpty : (q : HoldQueue) (op : HoldOp) → ClosedEmpty q → ClosedEmpty (step q op)
unfolding step ClosedEmpty enqueue release_one release_all release_by_index close
step-ClosedEmpty q (enqueue_op h) inv = ground (arith)
step-ClosedEmpty q (release_one_op d) inv = ground (arith)
step-ClosedEmpty q (release_all_op d) inv = λ e. refl
step-ClosedEmpty q (release_by_index_op i d) inv = ground (arith)
step-ClosedEmpty q close_op inv = ground (arith)

arrived-append : (ops more : List HoldOp) → arrived (ops ++ more) ≡ arrived ops ++ arrived more
unfolding arrived
arrived-append [] more = refl
arrived-append (enqueue_op h ∷ ops) more = ap (λ r. h ∷ r) (arrived-append ops more)
arrived-append (release_one_op d ∷ ops) more = arrived-append ops more
arrived-append (release_all_op d ∷ ops) more = arrived-append ops more
arrived-append (release_by_index_op i d ∷ ops) more = arrived-append ops more
arrived-append (close_op ∷ ops) more = arrived-append ops more

pub run-ClosedEmpty : (q : HoldQueue) (ops : List HoldOp) → ClosedEmpty q → ClosedEmpty (run q ops)
unfolding run
run-ClosedEmpty q [] inv = inv
run-ClosedEmpty q (op ∷ ops) inv = run-ClosedEmpty (step q op) ops (step-ClosedEmpty q op inv)

run-known :
    (q : HoldQueue) (ops : List HoldOp)
    → ClosedEmpty q
    → Perm (known (run q ops)) (known q ++ arrived ops)
unfolding run arrived
run-known q [] inv = unchanged-Perm refl
run-known q (op ∷ ops) inv = Perm.trans (run-known (step q op) ops (step-ClosedEmpty q op inv)) (
    Perm.trans (Perm.append_right (arrived ops) (step-known q op inv)) (
      Perm_of_eq (
        append_assoc (known q) (arrived (op ∷ [])) (arrived ops)
        ∙ ap (λ r. known q ++ r) (sym (arrived-append (op ∷ []) ops)))))

-- Whatever calls are made of a new queue, in whatever order, the notifications that were answered
-- and those still held are together exactly the ones that were enqueued: none is lost and none is
-- answered twice.
pub run-conserves : (ops : List HoldOp) → Perm (known (run new_hold_queue ops)) (arrived ops)
unfolding known answered new_hold_queue
run-conserves ops = run-known new_hold_queue ops new_hold_queue-ClosedEmpty

run-closed : (q : HoldQueue) (ops : List HoldOp) → q.closed ≡ true → (run q ops).closed ≡ true
unfolding run step enqueue release_one release_all release_by_index close
run-closed q [] c = c
run-closed q (op ∷ ops) c = run-closed (step q op) ops (stays op)
  where
    stays : (op : HoldOp) → (step q op).closed ≡ true
    stays (enqueue_op h) = ground (arith)
    stays (release_one_op d) = ground (arith)
    stays (release_all_op d) = c
    stays (release_by_index_op i d) = ground (arith)
    stays close_op = ground (arith)

closes : (q : HoldQueue) → (close q).closed ≡ true
unfolding close
closes q = ground (arith)

close_in-closed :
    (q : HoldQueue) (ops more : List HoldOp) → (run q (ops ++ close_op ∷ more)).closed ≡ true
unfolding run step
close_in-closed q [] more = run-closed (close q) more (closes q)
close_in-closed q (op ∷ ops) more = close_in-closed (step q op) ops more

-- Once a queue has been closed, every notification that was ever enqueued, before or after, has
-- been answered exactly once, and nothing is held.
pub closed-answers_all :
    (ops more : List HoldOp)
    → ((run new_hold_queue (ops ++ close_op ∷ more)).pending ≡ [])
      × Perm (answered (run new_hold_queue (ops ++ close_op ∷ more))) (arrived (ops ++ more))
unfolding ClosedEmpty known answered arrived
closed-answers_all ops more = (
  empty,
  Perm.trans (Perm_of_eq all_answered)
      (Perm.trans (run-conserves (ops ++ close_op ∷ more)) (Perm_of_eq same)),
)
  where
    end : HoldQueue
    end = run new_hold_queue (ops ++ close_op ∷ more)

    is_closed : end.closed ≡ true
    is_closed = close_in-closed new_hold_queue ops more

    empty : end.pending ≡ []
    empty =
        run-ClosedEmpty new_hold_queue (ops ++ close_op ∷ more) new_hold_queue-ClosedEmpty is_closed

    all_answered : answered end ≡ known end
    all_answered = sym (append-nil (answered end)) ∙ ap (λ r. answered end ++ r) (sym empty)

    same : arrived (ops ++ close_op ∷ more) ≡ arrived (ops ++ more)
    same = arrived-append ops (close_op ∷ more) ∙ sym (arrived-append ops more)
