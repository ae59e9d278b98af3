-- ===== src/Connowner/Run.antt =====
-- internal/connowner/tracker.go: the calls that change a tracker.
use faultbox.Base.{
  ℕ, zero, suc, ◌+◌, Bool, true, false, Option, none, some, List, [], ◌∷◌, ◌++◌, String, length,
  ◌==◌, if◌then◌else◌,
}
use faultbox.Connowner.{unknown, Tuple, Binding, Bridge, Tracker, register, unregister}

abbrev pub new_binding : Tuple → Bool → Binding
new_binding tuple valid = record { tuple = tuple; valid = valid; closed = false; source = unknown }

unfoldable pub with_bindings : List Binding → Tracker → Tracker
with_bindings bs t = record {
  next = t.next;
  registrations = t.registrations;
  bridges = t.bridges;
  bindings = bs;
}

-- `Bind`: the binding's place in the store.
unfoldable pub bind : Tuple → Bool → Tracker → Tracker × ℕ
unfolding with_bindings
bind tuple valid t =
    (with_bindings (t.bindings ++ new_binding tuple valid ∷ []) t, length t.bindings)

abbrev pub close_at : ℕ → List Binding → List Binding
close_at i [] = []
close_at zero (b ∷ bs) = record b { closed = true } ∷ bs
close_at (suc i) (b ∷ bs) = b ∷ close_at i bs

-- `Binding.Close`
unfoldable pub close_binding : ℕ → Tracker → Tracker
unfolding with_bindings
close_binding i t = with_bindings (close_at i t.bindings) t

-- `Forward`, with the tuples of the upstream connection and of the client's and whether they are
-- valid: the token and the binding for the function it returns, unless that does nothing.
unfoldable pub forward : Tuple → Bool → Tuple → Bool → Tracker → Tracker × Option (ℕ × ℕ)
forward key valid client client_valid t =
    if valid
    then (
      record {
        next = t.next + 1;
        registrations = t.registrations;
        bridges =
            t.bridges ++ record { key = key; token = t.next + 1; binding = length t.bindings } ∷ [];
        bindings = t.bindings ++ new_binding client client_valid ∷ [];
      },
      some (t.next + 1, length t.bindings),
    )
    else (t, none)

abbrev pub without_bridge : ℕ → List Bridge → List Bridge
without_bridge token [] = []
without_bridge token (b ∷ bs) =
    let rest = without_bridge token bs in if b.token == token then rest else b ∷ rest

-- The function that `Forward` returns.
unfoldable pub end_forward : ℕ → ℕ → Tracker → Tracker
end_forward token binding t = record {
  next = t.next;
  registrations = t.registrations;
  bridges = without_bridge token t.bridges;
  bindings = close_at binding t.bindings;
}

pub data TrackerOp : Type 0 where
  register_op : String → ℕ → Option ℕ → TrackerOp
  unregister_op : ℕ → TrackerOp
  bind_op : Tuple → Bool → TrackerOp
  close_binding_op : ℕ → TrackerOp
  forward_op : Tuple → Bool → Tuple → Bool → TrackerOp
  end_forward_op : ℕ → ℕ → TrackerOp

unfoldable pub step : Tracker → TrackerOp → Tracker
step t (register_op service pid start) = (register service pid start t).0
step t (unregister_op token) = unregister token t
step t (bind_op tuple valid) = (bind tuple valid t).0
step t (close_binding_op i) = close_binding i t
step t (forward_op key valid client client_valid) = (forward key valid client client_valid t).0
step t (end_forward_op token binding) = end_forward token binding t

unfoldable pub run : Tracker → List TrackerOp → Tracker
unfolding step
run t [] = t
run t (op ∷ ops) = run (step t op) ops
