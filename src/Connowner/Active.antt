-- ===== src/Connowner/Active.antt =====
-- internal/connowner/tracker.go: sources that are no longer active.
use faultbox.Base.{
  ℕ, ◌≤◌, ◌≡◌, refl, ap, ◌∙◌, true, false, ◌||◌, Option, none, some, List, [], ◌∷◌, ◌++◌, String,
  str_eq, All, ◌==◌, arith, Bool-cases, inl, inr,
}
use faultbox.Connowner.{
  Source, same_token, Registration, Tracker, new_tracker, add_registration, register, without_token,
  unregister, find_registration, is_active,
}
use faultbox.Connowner.Run.{
  bind, close_binding, with_bindings, forward, end_forward, TrackerOp, register_op, unregister_op,
  bind_op, close_binding_op, forward_op, end_forward_op, step, run,
}

abbrev OwnToken : Registration → Type 0
OwnToken reg = reg.source.instance_token ≡ some reg.token

abbrev OtherToken : ℕ → Registration → Type 0
OtherToken token reg = same_token reg.source.instance_token (some token) ≡ false

All-snoc :
    (P : Registration → Type 0) (regs : List Registration) (reg : Registration)
    → All P regs
    → P reg
    → All P (regs ++ reg ∷ [])
All-snoc P [] reg h p = (p, tt)
All-snoc P (r ∷ regs) reg h p = (h.0, All-snoc P regs reg h.1 p)

All-without_token :
    (P : Registration → Type 0) (token : ℕ) (regs : List Registration)
    → All P regs
    → All P (without_token token regs)
unfolding without_token
All-without_token P token [] h = tt
All-without_token P token (r ∷ regs) h = elim (Bool-cases (r.token == token)) [
  | inl hit ↦ rw (hit) (All-without_token P token regs h.1)
  | inr miss ↦ rw (miss) (h.0, All-without_token P token regs h.1)
]

without_token-OtherToken :
    (token : ℕ) (regs : List Registration)
    → All OwnToken regs
    → All (OtherToken token) (without_token token regs)
unfolding without_token
without_token-OtherToken token [] h = tt
without_token-OtherToken token (r ∷ regs) h = elim (Bool-cases (r.token == token)) [
  | inl hit ↦ rw (hit) (without_token-OtherToken token regs h.1)
  | inr miss ↦
      rw (miss)
        (ap (λ i. same_token i (some token)) h.0 ∙ miss, without_token-OtherToken token regs h.1)
]

find_registration-OtherToken :
    (token : ℕ) (regs : List Registration)
    → All (OtherToken token) regs
    → find_registration (some token) regs ≡ none
unfolding find_registration
find_registration-OtherToken token [] h = refl
find_registration-OtherToken token (r ∷ regs) h =
    rw (h.0) (find_registration-OtherToken token regs h.1)

Tied : Tracker → Type 0
Tied t = All OwnToken t.registrations

Gone : ℕ → Tracker → Type 0
Gone token t = All (OtherToken token) t.registrations × (token ≤ t.next)

register-Tied :
    (service : String) (pid : ℕ) (start : Option ℕ) (t : Tracker)
    → Tied t
    → Tied (register service pid start t).0
unfolding register add_registration Tied
register-Tied service pid none t h = h
register-Tied service pid (some start) t h = elim (Bool-cases (str_eq service "" || pid == 0)) [
  | inl bad ↦ rw (bad) h
  | inr good ↦ rw (good) (All-snoc OwnToken t.registrations _ h refl)
]

register-Gone :
    (token : ℕ) (service : String) (pid : ℕ) (start : Option ℕ) (t : Tracker)
    → Gone token t
    → Gone token (register service pid start t).0
unfolding register add_registration Gone
register-Gone token service pid none t h = h
register-Gone token service pid (some start) t h =
    elim (Bool-cases (str_eq service "" || pid == 0)) [
      | inl bad ↦ rw (bad) h
      | inr good ↦ rw (good) (
        All-snoc (OtherToken token) t.registrations _ h.0 (ground (arith, h.1)),
        omega (arith, h.1),
      )
    ]

step-Tied : (t : Tracker) (op : TrackerOp) → Tied t → Tied (step t op)
unfolding step unregister bind close_binding with_bindings forward end_forward Tied
step-Tied t (register_op service pid start) h = unfold Tied in register-Tied service pid start t h
step-Tied t (unregister_op token) h = All-without_token OwnToken token t.registrations h
step-Tied t (bind_op tuple valid) h = h
step-Tied t (close_binding_op i) h = h
step-Tied t (forward_op key true client client_valid) h = h
step-Tied t (forward_op key false client client_valid) h = h
step-Tied t (end_forward_op token binding) h = h

step-Gone : (token : ℕ) (t : Tracker) (op : TrackerOp) → Gone token t → Gone token (step t op)
unfolding step unregister bind close_binding with_bindings forward end_forward Gone
step-Gone token t (register_op service pid start) h = register-Gone token service pid start t h
step-Gone token t (unregister_op gone) h =
    (All-without_token (OtherToken token) gone t.registrations h.0, h.1)
step-Gone token t (bind_op tuple valid) h = h
step-Gone token t (close_binding_op i) h = h
step-Gone token t (forward_op key true client client_valid) h = (h.0, omega (arith, h.1))
step-Gone token t (forward_op key false client client_valid) h = h
step-Gone token t (end_forward_op gone binding) h = h

run-Tied : (t : Tracker) (ops : List TrackerOp) → Tied t → Tied (run t ops)
unfolding run
run-Tied t [] h = h
run-Tied t (op ∷ ops) h = run-Tied (step t op) ops (step-Tied t op h)

run-Gone : (token : ℕ) (t : Tracker) (ops : List TrackerOp) → Gone token t → Gone token (run t ops)
unfolding run
run-Gone token t [] h = h
run-Gone token t (op ∷ ops) h = run-Gone token (step t op) ops (step-Gone token t op h)

-- A source whose registration has ended is never active again, whatever is called afterwards and
-- whatever process has its number then; its token was given out before.
pub unregister-inactive :
    (before after : List TrackerOp) (token : ℕ) (source : Source) (now : Option ℕ)
    → source.instance_token ≡ some token
    → token ≤ (run new_tracker before).next
    → is_active source now (run (unregister token (run new_tracker before)) after) ≡ false
unfolding is_active
unregister-inactive before after token source now e issued =
    let t = run new_tracker before in
    let fresh : Tied t = run-Tied new_tracker before (unfold Tied in tt) in
    let gone : Gone token (unregister token t) =
      unfold Gone unregister in
      (without_token-OtherToken token t.registrations (unfold Tied in fresh), issued) in
    let later : All (OtherToken token) (run (unregister token t) after).registrations =
      unfold Gone in (run-Gone token (unregister token t) after gone).0 in
    let missing =
      find_registration-OtherToken token (run (unregister token t) after).registrations later in
    rw (e, missing) refl
