-- ===== src/Connowner/Resolve.antt =====
-- internal/connowner/tracker.go (Binding.resolve, Tracker.resolve): bindings that lead over bridges
-- to other bindings. What the loop over the registrations sees for a tuple is an argument. A
-- binding's place that is not in the store has no source. The recursion is on fuel.
pub mod Settles
use faultbox.Base.{
  ℕ, zero, suc, ◌+◌, ◌≤◌, ◌<◌, ◌≡◌, refl, sym, ap, ◌∙◌, Bool, true, false, not, ◌||◌, Option, none,
  some, List, [], ◌∷◌, length, get_elem?, ◌==◌, if◌then◌else◌, arith, Bool-cases, Option-cases, inl,
  inr,
}
use faultbox.Connowner.{Source, unknown, is_known, Tuple, same_tuple, Binding, Bridge, Tracker}
use faultbox.Connowner.Owners.{Seen, owners}
use faultbox.Connowner.Run.{with_bindings}

unfoldable pub bridges_of : Tuple → List Bridge → List Bridge
bridges_of key [] = []
bridges_of key (b ∷ bs) =
    let rest = bridges_of key bs in if same_tuple b.key key then b ∷ rest else rest

abbrev pub set_source : ℕ → Source → List Binding → List Binding
set_source i s [] = []
set_source zero s (b ∷ bs) = record b { source = s } ∷ bs
set_source (suc i) s (b ∷ bs) = b ∷ set_source i s bs

abbrev pub on_path : ℕ → List ℕ → Bool
on_path i [] = false
on_path i (j ∷ js) = j == i || on_path i js

-- The end of `Binding.resolve`, on the binding as it is then.
abbrev pub keep_source : ℕ → Source → Tracker → Option Binding → Tracker × Source
keep_source i s t none = (t, unknown)
keep_source i s t (some b) =
    if b.closed || (is_known b.source || not (is_known s))
    then (t, b.source)
    else (with_bindings (set_source i s t.bindings) t, s)

abbrev pub finish : ℕ → Option (Tracker × Source) → Option (Tracker × Source)
finish i none = none
finish i (some result) = some (keep_source i result.1 result.0 (get_elem? result.0.bindings i))

-- `Tracker.resolve`, given what resolving the one bridge's binding gives.
abbrev pub through_bridge :
    (ℕ → Option (Tracker × Source)) → List Seen → Tracker → List Bridge → Option (Tracker × Source)
through_bridge resolve seen t [] = some (t, owners seen unknown)
through_bridge resolve seen t (b ∷ []) = resolve b.binding
through_bridge resolve seen t (b ∷ c ∷ bs) = some (t, unknown)

-- `Binding.resolve` for the binding at the place, given how the bindings behind it are resolved.
abbrev pub resolve_found :
    (ℕ → Option (Tracker × Source))
    → (Tuple → List Seen)
    → List ℕ
    → Tracker
    → ℕ
    → Option Binding
    → Option (Tracker × Source)
resolve_found resolve look path t i none = some (t, unknown)
resolve_found resolve look path t i (some b) =
    if is_known b.source || (b.closed || not b.valid)
    then some (t, b.source)
    else if on_path i path
    then some (t, unknown)
    else finish i (through_bridge resolve (look b.tuple) t (bridges_of b.tuple t.bridges))

unfoldable pub resolve_binding :
    ℕ → (Tuple → List Seen) → List ℕ → Tracker → ℕ → Option (Tracker × Source)
unfolding bridges_of owners
resolve_binding zero look path t i = none
resolve_binding (suc fuel) look path t i =
    resolve_found (resolve_binding fuel look (i ∷ path) t) look path t i (get_elem? t.bindings i)
