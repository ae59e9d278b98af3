-- ===== src/Netfault/Decide.antt =====
-- internal/netfault/rule.go, `RuleSet.decide`: the walk over the rules for one packet. The rules
-- come back with their counters, in their order.
pub mod Rolled
pub mod First
use faultbox.Base.{ℕ, ◌+◌, Bool, true, false, not, List, [], ◌∷◌, Option, none, some, if◌then◌else◌}
use faultbox.Base.Float.{Float}
use faultbox.Netfault.PacketView.{PacketView}
use faultbox.Netfault.Match.{matches}
use faultbox.Netfault.Rule.{Rule, should_trigger, roll_probability, Draws, ProbabilityDecider}

-- What the walk carries: the rules that it has passed or will reach, the draws taken from the
-- generator, and the Starlark calls made. `acted` is the rule that fires, with its counters.
pub record Decision (F : Type 0) : Type 0 where
  pub rules : List (Rule F)
  pub drawn : ℕ
  pub evals : ℕ
  pub acted : Option (Rule F)

module _ {F : Type 0} ⦃fl : Float F⦄ (rnd : Draws F) (decider : Option (ProbabilityDecider F)) where
  -- One round of the loop: the rule with its counters, the draws, the calls, and whether it acts.
  unfoldable pub gate : PacketView → ℕ → ℕ → Rule F → Rule F × ℕ × ℕ × Bool
  gate p drawn evals r =
      let (hit, evals') = matches r.match p evals in
      let (counted, fires) = should_trigger r in
      let (rolled, drawn', passes) = roll_probability rnd decider drawn counted in
      if not hit
      then (r, drawn, evals', false)
      else if not fires
      then (counted, drawn, evals', false)
      else if not passes
      then (rolled, drawn', evals', false)
      else (record rolled { fired = rolled.fired + 1 }, drawn', evals', true)

  unfoldable pub decide : PacketView → ℕ → ℕ → List (Rule F) → Decision F
  decide p drawn evals [] = record { rules = []; drawn = drawn; evals = evals; acted = none }
  decide p drawn evals (r ∷ rs) =
      let (r', drawn', evals', acts) = gate p drawn evals r in
      let rest = decide p drawn' evals' rs in
      if acts
      then record { rules = r' ∷ rs; drawn = drawn'; evals = evals'; acted = some r' }
      else record rest { rules = r' ∷ rest.rules }
