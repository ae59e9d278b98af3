-- ===== src/Netfault/Decide/Rolled.antt =====
-- internal/netfault/rule.go, `Rule.rollProbability`: what lets a packet through, and the draws.
use mathlib.Core.Path.{subst}
use faultbox.Base.{
  ℕ, ◌+◌, ◌≡◌, refl, ap, ◌⊎◌, inl, inr, Bool, true, false, not, Option, none, some, str_eq, ◌&&◌,
  ◌||◌, if◌then◌else◌, arith, Bool-cases, Option-cases, sym, ◌∙◌, ◌-◌,
}
use faultbox.Base.Float.{Float}
use faultbox.Netfault.PacketView.{PacketView}
use faultbox.Netfault.Match.{hits}
use faultbox.Netfault.Rule.{
  Rule, trigger_fires, roll_probability, draw_fires, consult, pinned_or,
  next_probability_occurrence, Draws, ProbabilityDecider,
}

module _ {F : Type 0} ⦃fl : Float F⦄ (rnd : Draws F) (decider : Option (ProbabilityDecider F)) where
  -- The probability is no matter of chance.
  abbrev pub IsCertain : Rule F → Type 0
  IsCertain r = (fl.le r.probability fl.zero_f ≡ true) ⊎ (fl.le fl.one_f r.probability ≡ true)

  abbrev pub IsUncertain : Rule F → Type 0
  IsUncertain r = (fl.le r.probability fl.zero_f ≡ false) × (fl.le fl.one_f r.probability ≡ false)

  -- What a decider says of the next occurrence of a rule that is not stochastic, and whether that
  -- pins it.
  abbrev pub Says : Rule F → Bool → Bool → Type 0
  Says r fire pinned =
      (decide : ProbabilityDecider F) × (decider ≡ some decide)
      × (str_eq r.mode "stochastic" ≡ false)
      × (decide (record r { prob_counter = r.prob_counter + 1 }) r.prob_counter ≡ (fire, pinned))

  -- Nothing pins the occurrence.
  abbrev pub IsFree : Rule F → Type 0
  IsFree r =
      (decider ≡ none) ⊎ (str_eq r.mode "stochastic" ≡ true) ⊎ ((fire : Bool) × Says r fire false)

  -- The draw of the generator is below the probability; without a generator nothing is.
  abbrev pub Drawn : ℕ → Rule F → Bool → Type 0
  Drawn drawn r fire =
      ((rnd ≡ none) × (fire ≡ false))
      ⊎ ((next : ℕ → F) × (rnd ≡ some next) × (fire ≡ fl.lt (next drawn) r.probability))

  -- Whether the probability of a rule lets a packet through, after `drawn` draws.
  abbrev pub Rolled : ℕ → Rule F → Bool → Type 0
  Rolled drawn r fire =
      (IsCertain r × (fire ≡ true))
      ⊎ (IsUncertain r × Says r fire true)
      ⊎ (IsUncertain r × IsFree r × Drawn drawn r fire)

  abbrev pub is_some : Draws F → Bool
  is_some none = false
  is_some (some next) = true

  -- The draws that a packet takes at a rule: one where it comes to a real probability.
  unfoldable pub draws_at : PacketView → Rule F → ℕ
  draws_at p r =
      if hits r.match p
        && trigger_fires r.trigger r.trigger_n (r.counter + 1)
        && not (fl.le r.probability fl.zero_f || fl.le fl.one_f r.probability)
        && is_some rnd
      then 1
      else 0

  pub roll-keeps :
      (drawn : ℕ) (r : Rule F)
      → ((roll_probability rnd decider drawn r).0.counter ≡ r.counter)
        × ((roll_probability rnd decider drawn r).0.fired ≡ r.fired)
        × ((roll_probability rnd decider drawn r).0.action ≡ r.action)
  unfolding roll_probability
  roll-keeps drawn r = ground arith

  draw_fires-Drawn :
      (drawn : ℕ) (r : Rule F) → Drawn drawn r (draw_fires fl rnd drawn r.probability).0
  draw_fires-Drawn drawn r = elim (Option-cases rnd) [
    | inl e ↦ inl (e, ap (λ g. (draw_fires fl g drawn r.probability).0) e)
    | inr (next, e) ↦ inr (next, e, ap (λ g. (draw_fires fl g drawn r.probability).0) e)
  ]

  consult-Rolled :
      (drawn : ℕ) (r : Rule F) (fire : Bool)
      → IsUncertain r
      → Drawn drawn r fire
      → Rolled drawn r (consult decider r fire).1
  unfolding next_probability_occurrence
  consult-Rolled drawn r fire real draw = elim (Option-cases decider) [
    | inl e ↦
        let out : (consult decider r fire).1 ≡ fire = ap (λ d. (consult d r fire).1) e in
        subst (Rolled drawn r) (sym out) (inr (inr (real, inl e, draw)))
    | inr (decide, e) ↦
        let out : (consult decider r fire).1 ≡ (consult (some decide) r fire).1 =
          ap (λ d. (consult d r fire).1) e in
        elim (Bool-cases (str_eq r.mode "stochastic")) [
          | inl chance ↦
              let whole : (consult decider r fire).1 ≡ fire = out ∙ rw chance refl in
              subst (Rolled drawn r) (sym whole) (inr (inr (real, inr (inl chance), draw)))
          | inr plain ↦
              let before : r.prob_counter + 1 - 1 ≡ r.prob_counter = omega arith in
              let said = decide (record r { prob_counter = r.prob_counter + 1 }) r.prob_counter in
              let whole : (consult decider r fire).1 ≡ pinned_or said fire =
                out ∙ rw (plain, before) refl in
              subst (Rolled drawn r) (sym whole) (elim (Bool-cases said.1) [
                | inl pin ↦
                    let pair : said ≡ (said.0, true) = ap (λ b. (said.0, b)) pin in
                    subst (λ o. Rolled drawn r (pinned_or o fire)) (sym pair)
                      (inr (inl (real, (decide, e, plain, pair))))
                | inr loose ↦
                    let pair : said ≡ (said.0, false) = ap (λ b. (said.0, b)) loose in
                    subst (λ o. Rolled drawn r (pinned_or o fire)) (sym pair)
                      (inr (inr (real, inr (inr (said.0, (decide, e, plain, pair))), draw)))
              ])
        ]
  ]

  pub roll-Rolled :
      (drawn : ℕ) (r : Rule F) → Rolled drawn r (roll_probability rnd decider drawn r).2
  unfolding roll_probability
  roll-Rolled drawn r = elim (Bool-cases (fl.le r.probability fl.zero_f)) [
    | inl low ↦ inl (inl low, rw low refl)
    | inr above ↦ elim (Bool-cases (fl.le fl.one_f r.probability)) [
      | inl high ↦ inl (inr high, rw (above, high) refl)
      | inr below ↦
          let fire = (draw_fires fl rnd drawn r.probability).0 in
          let out : (roll_probability rnd decider drawn r).2 ≡ (consult decider r fire).1 =
            rw (above, below) refl in
          subst (Rolled drawn r) (sym out)
            (consult-Rolled drawn r fire (above, below) (draw_fires-Drawn drawn r))
    ]
  ]

  pub roll-draws :
      (drawn : ℕ) (r : Rule F)
      → (roll_probability rnd decider drawn r).1 ≡ (
          if fl.le r.probability fl.zero_f || fl.le fl.one_f r.probability
          then drawn
          else if is_some rnd
          then drawn + 1
          else drawn)
  unfolding roll_probability
  roll-draws drawn r = elim (Option-cases rnd) [
    | inl e ↦ rw e (ground arith)
    | inr (next, e) ↦ rw e (ground arith)
  ]
