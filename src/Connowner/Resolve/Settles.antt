-- ===== src/Connowner/Resolve/Settles.antt =====
-- internal/connowner/tracker.go: resolving the source of a binding comes to an end and is kept.
use mathlib.Core.Path.{subst}
use faultbox.Base.{
  ℕ, zero, suc, ◌+◌, ◌≤◌, ◌<◌, ◌≡◌, refl, sym, ap, ◌∙◌, true, false, not, ◌||◌, Option, none, some,
  List, [], ◌∷◌, length, get_elem?, ◌==◌, if◌then◌else◌, arith, Bool-cases, inl, inr,
}
use faultbox.Connowner.{Source, unknown, is_known, Tuple, Binding, Bridge, Tracker}
use faultbox.Connowner.Owners.{Seen}
use faultbox.Connowner.Run.{with_bindings}
use faultbox.Connowner.Resolve.{
  bridges_of, set_source, on_path, keep_source, finish, through_bridge, resolve_found,
  resolve_binding,
}

-- How many of the first `n` places are not on the path.
unfoldable off_path : ℕ → List ℕ → ℕ
off_path zero path = 0
off_path (suc n) path = let rest = off_path n path in if on_path n path then rest else rest + 1

off_path-le : (n i : ℕ) (path : List ℕ) → off_path n (i ∷ path) ≤ off_path n path
unfolding off_path
off_path-le zero i path = omega arith
off_path-le (suc n) i path = ground (arith, off_path-le n i path)

off_path-lt :
    (n i : ℕ) (path : List ℕ)
    → i < n
    → on_path i path ≡ false
    → off_path n (i ∷ path) < off_path n path
unfolding off_path
off_path-lt zero i path lt fresh = absurd (omega (arith, lt))
off_path-lt (suc n) i path lt fresh = elim (Bool-cases (i == n)) [
  | inl same ↦
      let e : i ≡ n = ground (arith, same) in
      let fresh_n : on_path n path ≡ false = ap (λ j. on_path j path) (sym e) ∙ fresh in
      ground (arith, same, fresh_n, off_path-le n i path)
  | inr apart ↦ ground (arith, apart, off_path-lt n i path (ground (arith, apart, lt)) fresh)
]

off_path-full : (n : ℕ) → off_path n [] ≤ n
unfolding off_path
off_path-full zero = omega arith
off_path-full (suc n) = ground (arith, off_path-full n)

get_elem?-bound :
    (bs : List Binding) (i : ℕ) (b : Binding) → get_elem? bs i ≡ some b → i < length bs
get_elem?-bound [] i b e = absurd cc
get_elem?-bound (x ∷ bs) zero b e = omega arith
get_elem?-bound (x ∷ bs) (suc i) b e = omega (arith, get_elem?-bound bs i b e)

Returns : Option (Tracker × Source) → Type 0
Returns r = (result : Tracker × Source) × (r ≡ some result)

through_bridge-Returns :
    (resolve : ℕ → Option (Tracker × Source)) (seen : List Seen) (t : Tracker) (bs : List Bridge)
    → ((i : ℕ) → Returns (resolve i))
    → Returns (through_bridge resolve seen t bs)
unfolding Returns
through_bridge-Returns resolve seen t [] h = (_, refl)
through_bridge-Returns resolve seen t (b ∷ []) h = h b.binding
through_bridge-Returns resolve seen t (b ∷ c ∷ bs) h = (_, refl)

finish-Returns : (i : ℕ) (r : Option (Tracker × Source)) → Returns r → Returns (finish i r)
unfolding Returns
finish-Returns i r h = (_, ap (finish i) h.1)

resolve_found-Returns :
    (resolve : ℕ → Option (Tracker × Source)) (look : Tuple → List Seen) (path : List ℕ)
    (t : Tracker) (i : ℕ) (o : Option Binding)
    → get_elem? t.bindings i ≡ o
    → (i < length t.bindings → on_path i path ≡ false → (j : ℕ) → Returns (resolve j))
    → Returns (resolve_found resolve look path t i o)
resolve_found-Returns resolve look path t i none e deeper = unfold Returns in (_, refl)
resolve_found-Returns resolve look path t i (some b) e deeper =
    elim (Bool-cases (is_known b.source || (b.closed || not b.valid))) [
      | inl settled ↦ rw (settled) (unfold Returns in (_, refl))
      | inr unsettled ↦ elim (Bool-cases (on_path i path)) [
        | inl again ↦ rw (unsettled, again) (unfold Returns in (_, refl))
        | inr fresh ↦
            rw (unsettled, fresh)
              (finish-Returns i
                (through_bridge resolve (look b.tuple) t (bridges_of b.tuple t.bridges))
                (through_bridge-Returns resolve (look b.tuple) t (bridges_of b.tuple t.bridges)
                  (deeper (get_elem?-bound t.bindings i b e) fresh)))
      ]
    ]

resolve_binding-Returns :
    (fuel : ℕ) (look : Tuple → List Seen) (path : List ℕ) (t : Tracker) (i : ℕ)
    → off_path (length t.bindings) path < fuel
    → Returns (resolve_binding fuel look path t i)
unfolding resolve_binding
resolve_binding-Returns zero look path t i enough = absurd (omega (arith, enough))
resolve_binding-Returns (suc fuel) look path t i enough =
    resolve_found-Returns (resolve_binding fuel look (i ∷ path) t) look path t i
      (get_elem? t.bindings i) refl
      (λ bound fresh j.
        resolve_binding-Returns fuel look (i ∷ path) t j
          (omega (arith, enough, off_path-lt (length t.bindings) i path bound fresh)))

get_elem?-set_source :
    (bs : List Binding) (i : ℕ) (s : Source) (b : Binding)
    → get_elem? bs i ≡ some b
    → get_elem? (set_source i s bs) i ≡ some (record b { source = s })
get_elem?-set_source [] i s b e = absurd cc
get_elem?-set_source (x ∷ bs) zero s b e =
    let same : x ≡ b = cc in
    let attributed : Binding → Binding = λ y. record y { source = s } in
    ap (λ y. some (attributed y)) same
get_elem?-set_source (x ∷ bs) (suc i) s b e = get_elem?-set_source bs i s b e

-- The binding at a place has the given source.
Attributed : Tracker → ℕ → Source → Type 0
Attributed t i s = (b : Binding) × (get_elem? t.bindings i ≡ some b) × (b.source ≡ s)

keep_source-Attributed :
    (i : ℕ) (s : Source) (t : Tracker) (o : Option Binding)
    → get_elem? t.bindings i ≡ o
    → is_known (keep_source i s t o).1 ≡ true
    → Attributed (keep_source i s t o).0 i (keep_source i s t o).1
unfolding Attributed with_bindings
keep_source-Attributed i s t none e h = absurd (ground (arith, h))
keep_source-Attributed i s t (some b) e h =
    elim (Bool-cases (b.closed || (is_known b.source || not (is_known s)))) [
      | inl settled ↦ rw (settled) (b, e, refl)
      | inr new ↦ rw (new) (record b { source = s }, get_elem?-set_source t.bindings i s b e, refl)
    ]

-- A known result is the source of the binding from then on.
Kept : ℕ → Tracker × Source → Type 0
Kept i result = is_known result.1 ≡ true → Attributed result.0 i result.1

finish-Kept :
    (i : ℕ) (r : Option (Tracker × Source)) (result : Tracker × Source)
    → finish i r ≡ some result
    → Kept i result
unfolding Kept
finish-Kept i none result e = absurd cc
finish-Kept i (some (t, s)) result e =
    let kept = keep_source i s t (get_elem? t.bindings i) in
    let same : kept ≡ result = cc in
    subst (λ x. is_known x.1 ≡ true → Attributed x.0 i x.1) same
      (keep_source-Attributed i s t (get_elem? t.bindings i) refl)

resolve_found-Kept :
    (resolve : ℕ → Option (Tracker × Source)) (look : Tuple → List Seen) (t : Tracker) (i : ℕ)
    (o : Option Binding) (result : Tracker × Source)
    → get_elem? t.bindings i ≡ o
    → resolve_found resolve look [] t i o ≡ some result
    → Kept i result
unfolding Kept Attributed
resolve_found-Kept resolve look t i none result at e =
    let same : (t, unknown) ≡ result = cc in
    subst (λ x. is_known x.1 ≡ true → Attributed x.0 i x.1) same (λ h. absurd (ground (arith, h)))
resolve_found-Kept resolve look t i (some b) result at e =
    elim (Bool-cases (is_known b.source || (b.closed || not b.valid))) [
      | inl settled ↦
          let now : some (t, b.source) ≡ some result = rw (settled) at e in
          let same : (t, b.source) ≡ result = cc in
          subst (λ x. is_known x.1 ≡ true → Attributed x.0 i x.1) same (λ h. (b, at, refl))
      | inr unsettled ↦
          finish-Kept i (through_bridge resolve (look b.tuple) t (bridges_of b.tuple t.bridges))
            result (rw (unsettled) at e)
    ]

Attributed-again :
    (later : Tuple → List Seen) (t : Tracker) (i : ℕ) (s : Source)
    → is_known s ≡ true
    → Attributed t i s
    → resolve_binding 1 later [] t i ≡ some (t, s)
unfolding resolve_binding Attributed
Attributed-again later t i s h there =
    let known_there : is_known there.0.source ≡ true = ap is_known there.2 ∙ h in
    let settled : resolve_found (λ j. none) later [] t i (some there.0) ≡ some (t, there.0.source) =
      rw (known_there) refl in
    ap (resolve_found (λ j. none) later [] t i) there.1 ∙ settled ∙ ap (λ x. some (t, x)) there.2

-- The source of a binding is found whatever bridges there are, cycles included: one more round than
-- there are bindings is enough. If it is known, the binding keeps it, so that the next call gives
-- the same without looking at the processes again.
pub resolve_binding-settles :
    (look later : Tuple → List Seen) (t : Tracker) (i : ℕ)
    → ((result : Tracker × Source) × (resolve_binding (suc (length t.bindings)) look [] t i
          ≡ some result)
        × (is_known result.1 ≡ true → resolve_binding 1 later [] result.0 i ≡ some result))
unfolding resolve_binding Returns Kept
resolve_binding-settles look later t i =
    let fuel = length t.bindings in
    let found =
      resolve_binding-Returns (suc fuel) look [] t i (omega (arith, off_path-full fuel)) in
    let kept =
      resolve_found-Kept (resolve_binding fuel look (i ∷ []) t) look t i (get_elem? t.bindings i)
        found.0 refl found.1 in
    (found.0, found.1, λ h. Attributed-again later found.0.0 i found.0.1 h (kept h))
