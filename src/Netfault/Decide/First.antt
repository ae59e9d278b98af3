-- ===== src/Netfault/Decide/First.antt =====
-- internal/netfault/rule.go, `RuleSet.decide`: which rule acts on a packet, and what the walk does to
-- the counters of the others.
use mathlib.Core.Path.{subst}
use faultbox.Base.{
  ℕ, ◌+◌, ◌≡◌, refl, ap, ◌⊎◌, inl, inr, true, false, List, [], ◌∷◌, ◌++◌, Option, none, some, arith,
  Bool-cases, ◌∙◌,
}
use faultbox.Base.Float.{Float}
use faultbox.Netfault.PacketView.{PacketView}
use faultbox.Netfault.Match.{hits, matches-hits}
use faultbox.Netfault.Rule.{
  Rule, should_trigger, trigger_fires, roll_probability, Draws, ProbabilityDecider,
}
use faultbox.Netfault.Decide.{gate, decide}
use faultbox.Netfault.Decide.Rolled.{Rolled, draws_at, roll-keeps, roll-Rolled, roll-draws}

module _ {F : Type 0} ⦃fl : Float F⦄ (rnd : Draws F) (decider : Option (ProbabilityDecider F)) where
  abbrev pub counted : Rule F → Rule F
  counted r = record r { counter = r.counter + 1 }

  -- A rule that some gate kept a packet from: it did not match and is as it was, or its trigger or
  -- its probability did not let the packet through, and its match is counted but no fire.
  abbrev pub Passed : PacketView → ℕ → Rule F → Rule F → Type 0
  Passed p drawn r r' =
      ((hits r.match p ≡ false) × (r' ≡ r))
      ⊎ ((hits r.match p ≡ true)
          × (trigger_fires r.trigger r.trigger_n (r.counter + 1) ≡ false)
          × (r' ≡ counted r))
      ⊎ ((hits r.match p ≡ true)
          × (trigger_fires r.trigger r.trigger_n (r.counter + 1) ≡ true)
          × Rolled rnd decider drawn (counted r) false
          × (r'.counter ≡ r.counter + 1)
          × (r'.fired ≡ r.fired))

  abbrev pub AllPassed : PacketView → ℕ → List (Rule F) → List (Rule F) → Type 0
  AllPassed p drawn [] [] = Unit
  AllPassed p drawn (r ∷ rs) (r' ∷ rs') =
      Passed p drawn r r' × AllPassed p (drawn + draws_at rnd decider p r) rs rs'
  AllPassed p drawn _ _ = ⊥

  -- The draws that are taken when a packet has gone past some rules.
  abbrev pub draws_after : PacketView → ℕ → List (Rule F) → ℕ
  draws_after p drawn [] = drawn
  draws_after p drawn (r ∷ rs) = draws_after p (drawn + draws_at rnd decider p r) rs

  -- A rule that acted: it matched, its trigger and its probability let the packet through, and its
  -- match and its fire are counted once.
  pub record Acted (p : PacketView) (drawn : ℕ) (r r' : Rule F) : Type 0 where
    pub matched : hits r.match p ≡ true
    pub triggered : trigger_fires r.trigger r.trigger_n (r.counter + 1) ≡ true
    pub rolled : Rolled rnd decider drawn (counted r) true
    pub match_counted : r'.counter ≡ r.counter + 1
    pub fire_counted : r'.fired ≡ r.fired + 1
    pub same_action : r'.action ≡ r.action

  gate-Passed :
      (p : PacketView) (drawn evals : ℕ) (r : Rule F)
      → (gate rnd decider p drawn evals r).3 ≡ false
      → Passed p drawn r (gate rnd decider p drawn evals r).0
  unfolding gate should_trigger
  gate-Passed p drawn evals r h =
      let roll = roll_probability rnd decider drawn (counted r) in
      let hit = matches-hits r.match p evals in
      elim (Bool-cases (hits r.match p)) [
        | inr off ↦ inl (off, ground (arith, hit, off))
        | inl on ↦ elim (Bool-cases (trigger_fires r.trigger r.trigger_n (r.counter + 1))) [
          | inr off ↦ inr (inl (on, off, ground (arith, hit, on, off)))
          | inl fires ↦
              let kept = roll-keeps rnd decider drawn (counted r) in
              let no_pass : roll.2 ≡ false = ground (arith, hit, on, fires, h) in
              let same : (gate rnd decider p drawn evals r).0 ≡ roll.0 =
                ground (arith, hit, on, fires, no_pass) in
              inr (
                inr (
                  on,
                  fires,
                  subst (Rolled rnd decider drawn (counted r)) no_pass
                      (roll-Rolled rnd decider drawn (counted r)),
                  ap (λ (q : Rule F). q.counter) same ∙ kept.0,
                  ap (λ (q : Rule F). q.fired) same ∙ kept.1,
                ))
        ]
      ]

  gate-Acted :
      (p : PacketView) (drawn evals : ℕ) (r : Rule F)
      → (gate rnd decider p drawn evals r).3 ≡ true
      → Acted p drawn r (gate rnd decider p drawn evals r).0
  unfolding gate should_trigger
  gate-Acted p drawn evals r h =
      let roll = roll_probability rnd decider drawn (counted r) in
      let hit = matches-hits r.match p evals in
      let kept = roll-keeps rnd decider drawn (counted r) in
      let on : hits r.match p ≡ true = ground (arith, hit, h) in
      let fires : trigger_fires r.trigger r.trigger_n (r.counter + 1) ≡ true =
        ground (arith, hit, on, h) in
      let pass : roll.2 ≡ true = ground (arith, hit, on, fires, h) in
      let same : (gate rnd decider p drawn evals r).0 ≡ record roll.0 { fired = roll.0.fired + 1 } =
        ground (arith, hit, on, fires, pass) in
      record {
        matched = on;
        triggered = fires;
        rolled =
            subst (Rolled rnd decider drawn (counted r)) pass
              (roll-Rolled rnd decider drawn (counted r));
        match_counted = ap (λ (q : Rule F). q.counter) same ∙ kept.0;
        fire_counted = ap (λ (q : Rule F). q.fired) same ∙ ap (λ (k : ℕ). k + 1) kept.1;
        same_action = ap (λ (q : Rule F). q.action) same ∙ kept.2;
      }

  gate-draws :
      (p : PacketView) (drawn evals : ℕ) (r : Rule F)
      → (gate rnd decider p drawn evals r).1 ≡ drawn + draws_at rnd decider p r
  unfolding gate should_trigger draws_at
  gate-draws p drawn evals r =
      ground (arith, matches-hits r.match p evals, roll-draws rnd decider drawn (counted r))

  -- The first rule that all gates let through acts: either no rule acts, and every rule has been
  -- kept from by a gate of its own; or one does, every rule before it was kept from, its own match,
  -- trigger and probability let the packet through, and no rule behind it changes.
  pub decide-first :
      (p : PacketView) (drawn evals : ℕ) (rs : List (Rule F))
      → (((decide rnd decider p drawn evals rs).acted ≡ none)
          × AllPassed p drawn rs (decide rnd decider p drawn evals rs).rules)
        ⊎ ((pre pre' post : List (Rule F)) × (r q : Rule F) × ((decide rnd decider p drawn evals
                rs).acted
              ≡ some q)
            × (rs ≡ pre ++ r ∷ post)
            × ((decide rnd decider p drawn evals rs).rules ≡ pre' ++ q ∷ post)
            × AllPassed p drawn pre pre'
            × Acted p (draws_after p drawn pre) r q)
  unfolding decide
  decide-first p drawn evals [] = inl (refl, tt)
  decide-first p drawn evals (r ∷ rs) =
      let (r', drawn', evals', acts) = gate rnd decider p drawn evals r in
      let taken = gate-draws p drawn evals r in
      elim (Bool-cases (gate rnd decider p drawn evals r).3) [
        | inl stop ↦
            rw stop (inr ([], [], rs, r, r', refl, refl, refl, tt, gate-Acted p drawn evals r stop))
        | inr go ↦
            let passed = gate-Passed p drawn evals r go in
            elim (decide-first p drawn' evals' rs) [
              | inl (quiet, all) ↦ rw go (
                  inl (
                    quiet,
                    (
                      passed,
                      subst
                          (λ (k : ℕ).
                            AllPassed p k rs (decide rnd decider p drawn' evals' rs).rules)
                          taken all,
                    ),
                  ))
              | inr (pre, pre', post, s, q, loud, split, result, all, acted) ↦ rw go (
                  inr (
                    r ∷ pre,
                    r' ∷ pre',
                    post,
                    s,
                    q,
                    loud,
                    ap (◌∷◌ r) split,
                    ap (◌∷◌ r') result,
                    (passed, subst (λ (k : ℕ). AllPassed p k pre pre') taken all),
                    subst (λ (k : ℕ). Acted p (draws_after p k pre) s q) taken acted,
                  ))
            ]
      ]
