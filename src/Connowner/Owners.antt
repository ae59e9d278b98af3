-- ===== src/Connowner/Owners.antt =====
-- internal/connowner/tracker.go (Tracker.resolve): the loop over the registrations. It takes the
-- lock anew for each of them, so it runs over what it sees of each.
use faultbox.Base.{
  ℕ, ◌≡◌, ◌≢◌, ◌↔◌, refl, sym, ap, ◌∙◌, Bool, true, false, not, ◌&&◌, List, [], ◌∷◌, String, str_eq,
  if◌then◌else◌, arith, Bool-cases, inl, inr, and-both, ==_iff, ==_refl, eq_iff, eq_refl, Option,
  none, some, ◌==◌, ◌||◌, All,
}
use faultbox.Connowner.{same_token, Source, unknown, is_known, same_source, Registration}

-- What one round sees: whether the socket is owned, whether that could be found out, whether the
-- registration is still there, and what `IsActive` says.
pub record Seen : Type 0 where
  pub reg : Registration
  pub owned : Bool
  pub complete : Bool
  pub still_registered : Bool
  pub active : Bool

unfoldable pub owners : List Seen → Source → Source
owners [] found = found
owners (s ∷ rest) found =
    let go_on = owners rest found in
    let take = owners rest s.reg.source in
    if not s.still_registered
    then go_on
    else if not s.complete
    then unknown
    else if not s.active
    then go_on
    else if s.owned
    then (if is_known found && not (same_source found s.reg.source) then unknown else take)
    else go_on

-- Every registration that is still there could be looked at.
unfoldable pub all_complete : List Seen → Bool
all_complete [] = true
all_complete (s ∷ rest) = (not s.still_registered || s.complete) && all_complete rest

abbrev pub owns : Seen → Bool
owns s = s.still_registered && (s.active && s.owned)

-- Every active owner is the given source.
unfoldable pub agree : Source → List Seen → Bool
agree source [] = true
agree source (s ∷ rest) = (not (owns s) || same_source source s.reg.source) && agree source rest

unfoldable pub some_owner : List Seen → Bool
some_owner [] = false
some_owner (s ∷ rest) = owns s || some_owner rest

same_token-path : (a b : Option ℕ) → same_token a b ≡ true → a ≡ b
same_token-path none none h = refl
same_token-path none (some n) h = absurd cc
same_token-path (some m) none h = absurd cc
same_token-path (some m) (some n) h = ap some (ground (arith, h))

same_source-path : (a b : Source) → same_source a b ≡ true → a ≡ b
unfolding same_source
same_source-path a b h =
    let one = and-both (str_eq a.service b.service) _ h in
    let two = and-both (same_token a.instance_token b.instance_token) (a.pid == b.pid) one.1 in
    let make : String → Option ℕ → ℕ → Source =
      λ service token pid. record { service = service; instance_token = token; pid = pid } in
    ap (λ x. make x a.instance_token a.pid) ((eq_iff a.service b.service).0 one.0)
    ∙ ap (λ x. make b.service x a.pid) (same_token-path a.instance_token b.instance_token two.0)
    ∙ ap (make b.service b.instance_token) ((==_iff a.pid b.pid).0 two.1)

same_token_refl : (a : Option ℕ) → same_token a a ≡ true
same_token_refl none = refl
same_token_refl (some n) = ==_refl n

pub same_source_refl : (a : Source) → same_source a a ≡ true
unfolding same_source
same_source_refl a = rw (eq_refl a.service, same_token_refl a.instance_token, ==_refl a.pid) refl

owners-found :
    (seen : List Seen) (found : Source)
    → is_known found ≡ true
    → owners seen found ≡ (if all_complete seen && agree found seen then found else unknown)
unfolding owners all_complete agree
owners-found [] found h = refl
owners-found (s ∷ rest) found h =
    let go_on = owners-found rest found h in
    elim (Bool-cases (same_source found s.reg.source)) [
      | inl same ↦
          let take : owners rest s.reg.source ≡ owners rest found =
            ap (owners rest) (sym (same_source-path found s.reg.source same)) in
          rw (same, h, take, go_on) (ground arith)
      | inr apart ↦ rw (apart, h, go_on) (ground arith)
    ]

unknown-is_known : (s : Source) → is_known s ≡ true → unknown ≢ s
unknown-is_known s h e = absurd (ground (arith, ap is_known e, h))

chosen_iff :
    (b : Bool) (a s : Source)
    → is_known s ≡ true
    → ((if b then a else unknown) ≡ s) ↔ ((b ≡ true) × (a ≡ s))
chosen_iff true a s h = (λ e. (refl, e), λ both. both.1)
chosen_iff false a s h =
    (λ e. absurd (unknown-is_known s h e), λ both. absurd (ground (arith, both.0)))

Proven : List Seen → Source → Type 0
unfolding all_complete agree some_owner
Proven seen s = (all_complete seen ≡ true) × (agree s seen ≡ true) × (some_owner seen ≡ true)

module _ (o : Seen) (rest : List Seen) (s : Source) where
  skipped :
      (owns o ≡ false)
      → ((not o.still_registered || o.complete) ≡ true)
      → (owners (o ∷ rest) unknown ≡ owners rest unknown)
        × ((Proven rest s → Proven (o ∷ rest) s) × (Proven (o ∷ rest) s → Proven rest s))
  unfolding owners Proven all_complete agree some_owner
  skipped passed complete = (
    ground (arith, passed, complete),
    (
      λ p. (ground (arith, complete, p.0), ground (arith, passed, p.1), ground (arith, p.2)),
      λ p. (ground (arith, p.0), ground (arith, p.1), ground (arith, passed, p.2)),
    ),
  )

  incomplete :
      o.still_registered ≡ true
      → o.complete ≡ false
      → (owners (o ∷ rest) unknown ≡ unknown) × ¬ Proven (o ∷ rest) s
  unfolding owners Proven all_complete
  incomplete still missing =
      (rw (still, missing) refl, λ p. absurd (ground (arith, p.0, still, missing)))

  owner_Proven :
      owns o ≡ true
      → o.complete ≡ true
      → is_known o.reg.source ≡ true
      → is_known s ≡ true
      → (owners (o ∷ rest) unknown ≡ s) ↔ Proven (o ∷ rest) s
  unfolding owners Proven all_complete agree some_owner
  owner_Proven own complete known_o known_s =
      let src = o.reg.source in
      let one = and-both o.still_registered (o.active && o.owned) own in
      let two = and-both o.active o.owned one.1 in
      let chosen : owners (o ∷ rest) unknown
          ≡ (if all_complete rest && agree src rest then src else unknown) =
        rw (one.0, complete, two.0, two.1) (owners-found rest src known_o) in
      let pick_iff = chosen_iff (all_complete rest && agree src rest) src s known_s in
      (
        λ e.
            let both = pick_iff.0 (sym chosen ∙ e) in
            let parts = and-both (all_complete rest) (agree src rest) both.0 in
            let agree_s : agree s rest ≡ true = ap (λ x. agree x rest) (sym both.1) ∙ parts.1 in
            let same : same_source s src ≡ true = ap (same_source s) both.1 ∙ same_source_refl s in
            (
              ground (arith, complete, parts.0),
              rw (same, agree_s) (ground arith),
              ground (arith, own),
            ),
        λ p.
            let agreed = and-both (not (owns o) || same_source s src) (agree s rest) p.1 in
            let same : same_source s src ≡ true = ground (arith, own, agreed.0) in
            let e : s ≡ src = same_source-path s src same in
            let agree_src : agree src rest ≡ true = ap (λ x. agree x rest) (sym e) ∙ agreed.1 in
            let all : all_complete rest ≡ true = ground (arith, p.0) in
            chosen ∙ pick_iff.1 (rw (all, agree_src) refl, sym e),
      )

-- The loop attributes a connection to a source exactly if all the registrations that are still
-- there could be looked at, an active one of them owns the socket, and no active one of another
-- source does; registrations have tokens.
pub owners_iff :
    (seen : List Seen) (s : Source)
    → All (λ o. is_known o.reg.source ≡ true) seen
    → is_known s ≡ true
    → (owners seen unknown ≡ s)
      ↔ ((all_complete seen ≡ true) × (agree s seen ≡ true) × (some_owner seen ≡ true))
unfolding owners some_owner Proven
owners_iff [] s registered known_s =
    (λ e. absurd (unknown-is_known s known_s e), λ p. absurd (ground (arith, p.2)))
owners_iff (o ∷ rest) s registered known_s =
    elim (Bool-cases (not o.still_registered || o.complete)) [
      | inl complete ↦ elim (Bool-cases (owns o)) [
        | inl own ↦ owner_Proven o rest s own (ground (arith, own, complete)) registered.0 known_s
        | inr passed ↦
            let skip = skipped o rest s passed complete in
            let more = owners_iff rest s registered.1 known_s in
            (λ e. skip.1.0 (more.0 (sym skip.0 ∙ e)), λ p. skip.0 ∙ more.1 (skip.1.1 p))
      ]
      | inr gap ↦
          let stop = incomplete o rest s (ground (arith, gap)) (ground (arith, gap)) in
          (λ e. absurd (unknown-is_known s known_s (sym stop.0 ∙ e)), λ p. absurd (stop.1 p))
    ]
