-- ===== src/Connowner/Tests.antt =====
-- Tests of internal/connowner/tracker.go: a client that has its own process, one behind a proxy,
-- and two bridges that lead to each other.
use faultbox.Base.{ℕ, suc, ◌≡◌, ◌↔◌, refl, true, false, some, [], ◌∷◌, length, arith}
use faultbox.Connowner.{
  Source, unknown, is_known, same_tuple, Tuple, Tracker, new_tracker, add_registration, register,
  unregister, is_active,
}
use faultbox.Connowner.Owners.{Seen, owners, all_complete, agree, some_owner, owners_iff}
use faultbox.Connowner.Run.{register_op, run, step, forward}
use faultbox.Connowner.Active.{unregister-inactive}
use faultbox.Connowner.Resolve.{resolve_binding, bridges_of}
use faultbox.Connowner.Resolve.Settles.{resolve_binding-settles}

abbrev web : Source
web = record { service = "web"; instance_token = some 1; pid = 40 }

abbrev web_owns : Seen
web_owns = record {
  reg = record { source = web; start = 7; token = 1 };
  owned = true;
  complete = true;
  still_registered = true;
  active = true;
}

abbrev between : ℕ → ℕ → Tuple
between a b = record { from = record { addr = 1; port = a }; to = record { addr = 1; port = b } }

owners_iff_example : (owners (web_owns ∷ []) unknown ≡ web) ↔ (
    (all_complete (web_owns ∷ []) ≡ true)
    × (agree web (web_owns ∷ []) ≡ true)
    × (some_owner (web_owns ∷ []) ≡ true))
owners_iff_example = owners_iff (web_owns ∷ []) web (refl, tt) refl

unregister-inactive_example :
    is_active web (some 7) (
      run
        (unregister 1 (run new_tracker (register_op "web" 40 (some 7) ∷ [])))
        (register_op "web" 40 (some 9) ∷ []))
    ≡ false
unregister-inactive_example =
    unregister-inactive (register_op "web" 40 (some 7) ∷ []) (register_op "web" 40 (some 9) ∷ []) 1
      web (some 7) refl (unfold run step register add_registration in omega arith)

-- The client's end of each bridge is the upstream end of the other.
abbrev crossed : Tracker
crossed =
    (forward (between 3 4) true (between 1 2) true
      (forward (between 1 2) true (between 3 4) true new_tracker).0).0

crossed-unknown : resolve_binding 3 (λ key. web_owns ∷ []) [] crossed 0 ≡ some (crossed, unknown)
unfolding resolve_binding bridges_of same_tuple forward
crossed-unknown = refl

resolve_binding-settles_example :
    ((result : Tracker × Source) × (resolve_binding
          (suc (length crossed.bindings))
          (λ key. web_owns ∷ [])
          []
          crossed
          0
        ≡ some result)
      × (is_known result.1 ≡ true → resolve_binding 1 (λ key. []) [] result.0 0 ≡ some result))
resolve_binding-settles_example =
    resolve_binding-settles (λ key. web_owns ∷ []) (λ key. []) crossed 0
