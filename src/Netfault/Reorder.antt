-- ===== src/Netfault/Reorder.antt =====
-- internal/netfault/defer.go, the second half: the buffer that lets later packets of a flow
-- overtake one that is held. `F` stands for the functions that release a packet.
use faultbox.Base.{
  ℕ, zero, suc, ◌+◌, ◌≡◌, refl, Bool, true, false, Option, none, some, List, [], ◌∷◌, map, String,
  str_eq, if◌then◌else◌, ◌∙◌, ap, arith, Bool-cases, inl, inr, eq_iff, eq_refl,
}
use faultbox.Base.Dict.{
  Dict, lookup, insert, remove, lookup-insert_self, lookup-insert, lookup-remove,
}
use faultbox.Base.Int.{ℤ, pos, negsuc, ltb_ℤ}

pub record HeldPacket (F : Type 0) : Type 0 where
  pub remaining : ℤ
  pub release : F

abbrev pub ReorderBuffer : Type 0 → Type 0
ReorderBuffer F = Dict (HeldPacket F)

abbrev pub decrement : ℤ → ℤ
decrement (pos zero) = negsuc 0
decrement (pos (suc n)) = pos n
decrement (negsuc n) = negsuc (suc n)

-- How many of the packets are of the flow.
unfoldable pub passed : String → List String → ℕ
passed flow [] = 0
passed flow (f ∷ flows) = let rest = passed flow flows in if str_eq f flow then rest + 1 else rest

module _ {F : Type 0} where
  abbrev hold_if_free :
      Option (HeldPacket F) → String → ℤ → F → ReorderBuffer F → ReorderBuffer F × Bool
  hold_if_free (some h) flow by release rb = (rb, false)
  hold_if_free none flow by release rb =
      (insert flow (record { remaining = by; release = release }) rb, true)

  unfoldable pub hold : String → ℤ → F → ReorderBuffer F → ReorderBuffer F × Bool
  hold flow by release rb = hold_if_free (lookup flow rb) flow by release rb

  abbrev count_down : Option (HeldPacket F) → String → ReorderBuffer F → ReorderBuffer F × Option F
  count_down none flow rb = (rb, none)
  count_down (some h) flow rb =
      let left = decrement h.remaining in
      if ltb_ℤ (pos 0) left
      then (insert flow (record h { remaining = left }) rb, none)
      else (remove flow rb, some h.release)

  unfoldable pub advance : String → ReorderBuffer F → ReorderBuffer F × Option F
  advance flow rb = count_down (lookup flow rb) flow rb

  -- The range over a Go map has no order: this one is that of the entries.
  unfoldable pub drain : ReorderBuffer F → ReorderBuffer F × List F
  drain rb = ([], map (λ e. e.1.release) rb)

  -- The buffer after the packets of `flows` passed, one after another.
  unfoldable pub advance_all : List String → ReorderBuffer F → ReorderBuffer F
  advance_all [] rb = rb
  advance_all (flow ∷ flows) rb = advance_all flows (advance flow rb).0

  -- A packet of another flow changes nothing about the packet that is held on this one.
  advance_other :
      (f flow : String) (rb : ReorderBuffer F)
      → str_eq f flow ≡ false
      → lookup flow (advance f rb).0 ≡ lookup flow rb
  unfolding advance
  advance_other f flow rb ne = case (lookup f rb)
    where
      case : (held : Option (HeldPacket F)) → lookup flow (count_down held f rb).0 ≡ lookup flow rb
      case none = refl
      case (some h) = elim (Bool-cases (ltb_ℤ (pos 0) (decrement h.remaining))) [
        | inl more ↦
            rw (more, lookup-insert f flow (record h { remaining = decrement h.remaining }) rb, ne)
              refl
        | inr over ↦ rw (over, lookup-remove f flow rb, ne) refl
      ]

  advance_same :
      (flow : String) (n : ℕ) (release : F) (rb : ReorderBuffer F)
      → lookup flow rb ≡ some (record { remaining = pos (suc (suc n)); release = release })
      → lookup flow (advance flow rb).0
        ≡ some (record { remaining = pos (suc n); release = release })
  unfolding advance
  advance_same flow n release rb h =
      let kept : ltb_ℤ (pos 0) (pos (suc n)) ≡ true = ground arith in
      ap (λ held. lookup flow (count_down held flow rb).0) h
      ∙ rw (kept)
          (lookup-insert_self flow (record { remaining = pos (suc n); release = release }) rb)

  -- A held packet is counted down by the packets of its own flow, whatever passes on others.
  advance_all-held :
      (flow : String) (flows : List String) (n m : ℕ) (release : F) (rb : ReorderBuffer F)
      → m ≡ n + passed flow flows
      → lookup flow rb ≡ some (record { remaining = pos (suc m); release = release })
      → lookup flow (advance_all flows rb)
        ≡ some (record { remaining = pos (suc n); release = release })
  unfolding advance_all passed
  advance_all-held flow [] n m release rb count h =
      let same : m ≡ n = omega (arith, count) in
      h ∙ ap (λ k. some (record { remaining = pos (suc k); release = release })) same
  advance_all-held flow (f ∷ flows) n m release rb count h = elim (Bool-cases (str_eq f flow)) [
    | inl own ↦
        let less : m ≡ suc (n + passed flow flows) = ground (arith) in
        ap (λ g. lookup flow (advance_all flows (advance g rb).0)) ((eq_iff f flow).0 own)
        ∙ advance_all-held flow flows n (n + passed flow flows) release (advance flow rb).0 refl (
            advance_same flow (n + passed flow flows) release rb
              (h ∙ ap (λ k. some (record { remaining = pos (suc k); release = release })) less))
    | inr other ↦
        advance_all-held flow flows n m release (advance f rb).0 (ground arith)
          (advance_other f flow rb other ∙ h)
  ]

  releases_last :
      (flow : String) (release : F) (rb : ReorderBuffer F)
      → lookup flow rb ≡ some (record { remaining = pos 1; release = release })
      → ((advance flow rb).1 ≡ some release) × (lookup flow (advance flow rb).0 ≡ none)
  unfolding advance
  releases_last flow release rb h = (
    ap (λ held. (count_down held flow rb).1) h,
    ap (λ held. lookup flow (count_down held flow rb).0) h
        ∙ (lookup-remove flow flow rb ∙ rw (eq_refl flow) refl),
  )

  -- A packet held for `by` packets of a flow that holds none is kept while fewer than that many
  -- pass, however many pass on other flows, and the one that completes the count releases it and
  -- frees the flow.
  pub hold-advance :
      (flow : String) (flows : List String) (n : ℕ) (release : F) (rb : ReorderBuffer F)
      → lookup flow rb ≡ none
      → passed flow flows ≡ n
      → let after = advance_all flows (hold flow (pos (suc n)) release rb).0 in
        ((advance flow after).1 ≡ some release) × (lookup flow (advance flow after).0 ≡ none)
  unfolding hold
  hold-advance flow flows n release rb free h =
      let held =
        lookup-insert_self flow (record { remaining = pos (suc n); release = release }) rb in
      releases_last flow release (advance_all flows (hold flow (pos (suc n)) release rb).0) (
        advance_all-held flow flows 0 n release (hold flow (pos (suc n)) release rb).0
          (omega (arith, h))
          (ap (λ o. lookup flow (hold_if_free o flow (pos (suc n)) release rb).0) free ∙ held))
