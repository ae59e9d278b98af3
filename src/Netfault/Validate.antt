-- ===== src/Netfault/Validate.antt =====
-- internal/netfault/rule.go, `Rule.Validate` and `NewRuleSet`: what a rule must be to reach the
-- datapath. An error stands for its message; the values that the message quotes are left out.
pub mod Coherent
pub mod Rules
use native.Mathlib.Nat.{zero-add}
use faultbox.Base.{
  ℕ, zero, suc, ◌+◌, ◌≡◌, ◌≢◌, refl, inl, inr, Bool, true, false, not, ◌&&◌, ◌||◌, List, [], ◌∷◌,
  ◌++◌, Option, none, some, str_eq, if◌then◌else◌, arith, All, length, Option-cases, ap,
}
use faultbox.Base.Int.{ℤ, pos, negsuc, leb_ℤ, ltb_ℤ}
use faultbox.Base.Float.{Float}
use faultbox.Netfault.Rule.{
  Action, pass_action, drop_action, delay_action, duplicate_action, reorder_action, corrupt_action,
  reset_action, window_action, Trigger, always, nth, after, every, Rule,
}
use faultbox.Netfault.Trigger.{trigger_run, trigger_run-count, fires_among}

pub data RuleError : Type 0 where
  delay_not_positive by_too_small count_too_small : RuleError
  length_too_small offset_negative unknown_mode unknown_checksum : RuleError
  reset_not_tcp window_not_tcp : RuleError
  probability_out_of_range max_fires_without_probability stochastic_with_max_fires : RuleError
  trigger_without_count : RuleError

abbrev pub is_always : Trigger → Bool
is_always always = true
is_always _ = false

-- The chain of checks: the first that fails is returned.
abbrev pub check : Bool → RuleError → Option RuleError → Option RuleError
check bad e rest = if bad then some e else rest

module _ {F : Type 0} where
  -- The `switch` on the action.
  abbrev pub action_error : Action → Rule F → Option RuleError → Option RuleError
  action_error delay_action r rest = check (leb_ℤ r.delay (pos 0)) delay_not_positive rest
  action_error reorder_action r rest = check (leb_ℤ r.reorder_by (pos 0)) by_too_small rest
  action_error duplicate_action r rest =
      check (ltb_ℤ r.duplicate_count (pos 2)) count_too_small rest
  action_error corrupt_action r rest = check (leb_ℤ r.corrupt_length (pos 0)) length_too_small (
      check (ltb_ℤ r.corrupt_offset (pos 0)) offset_negative (
        check
          (not (
            str_eq r.corrupt_mode "flip"
            || (str_eq r.corrupt_mode "zero" || str_eq r.corrupt_mode "random")))
          unknown_mode
          (check (not (str_eq r.checksum "fix" || str_eq r.checksum "break")) unknown_checksum
            rest)))
  action_error reset_action r rest =
      check (not (str_eq r.match.proto "") && not (str_eq r.match.proto "tcp")) reset_not_tcp rest
  action_error window_action r rest =
      check (not (str_eq r.match.proto "") && not (str_eq r.match.proto "tcp")) window_not_tcp rest
  action_error pass_action r rest = rest
  action_error drop_action r rest = rest

  abbrev pub common_error : Float F → Rule F → Option RuleError
  common_error fl r =
      check (fl.lt r.probability fl.zero_f || fl.lt fl.one_f r.probability) probability_out_of_range
        (check
          (ltb_ℤ (pos 0) r.max_fires
            && (fl.le r.probability fl.zero_f || fl.le fl.one_f r.probability))
          max_fires_without_probability
          (check (str_eq r.mode "stochastic" && ltb_ℤ (pos 0) r.max_fires) stochastic_with_max_fires
            (check (not (is_always r.trigger) && leb_ℤ r.trigger_n (pos 0)) trigger_without_count
              none)))

  -- `none` is a coherent rule.
  unfoldable pub validate : ⦃fl : Float F⦄ → Rule F → Option RuleError
  validate ⦃fl⦄ r = action_error r.action r (common_error fl r)

-- `NewRuleSet`: the rules as they are given, or the index of the first bad one.
pub data Frozen (F : Type 0) : Type 0 where
  frozen : List (Rule F) → Frozen F
  bad_rule : ℕ → RuleError → Frozen F

pub positive : (k : ℤ) → leb_ℤ k (pos 0) ≡ false → (m : ℕ) × (k ≡ pos (suc m))
positive (negsuc m) h = cc
positive (pos zero) h = cc
positive (pos (suc m)) h = (m, refl)

fires_among-zero : (t : Trigger) (k : ℕ) → t ≢ always → fires_among t (pos (suc k)) 0 ≡ 0
unfolding fires_among
fires_among-zero always k h = absurd (h refl)
fires_among-zero nth k h = ground arith
fires_among-zero after k h = omega arith
fires_among-zero every k h = omega arith

fires_total :
    (t : Trigger) (m : ℤ) (seen n fires k : ℕ)
    → fires_among t m seen + fires ≡ fires_among t m (seen + n)
    → m ≡ pos (suc k)
    → seen ≡ 0
    → t ≢ always
    → fires ≡ fires_among t (pos (suc k)) n
fires_total t m seen n fires k count em es ne =
    let at_zero : fires_among t (pos (suc k)) 0 + fires ≡ fires_among t (pos (suc k)) n =
      cc (count, em, es, zero-add n) in
    omega (arith, at_zero, fires_among-zero t k ne)

module _ {F : Type 0} ⦃fl : Float F⦄ where
  unfoldable pub first_error : ℕ → List (Rule F) → Option (ℕ × RuleError)
  first_error i [] = none
  first_error i (r ∷ rs) = elim (validate r) [
    | none ↦ first_error (i + 1) rs
    | some e ↦ some (i, e)
  ]

  unfoldable pub new_rule_set : List (Rule F) → Frozen F
  unfolding first_error
  new_rule_set rs = elim (first_error 0 rs) [ none ↦ frozen rs | some (i, e) ↦ bad_rule i e ]

  action_error-none :
      (a : Action) (r : Rule F) (rest : Option RuleError)
      → action_error a r rest ≡ none
      → rest ≡ none
  action_error-none pass_action r rest h = h
  action_error-none drop_action r rest h = h
  action_error-none _ r rest h = ground arith

  validate-positive :
      (r : Rule F) → validate r ≡ none → r.trigger ≢ always → leb_ℤ r.trigger_n (pos 0) ≡ false
  unfolding validate
  validate-positive r h t = ground (arith, action_error-none r.action r (common_error fl r) h)

  -- A coherent rule with a count trigger has a positive count: `nth=N` fires on one of `n` matching
  -- packets, if there are that many, `after=N` on all but the first `N`, and `every=N` on `n / N`.
  pub validate-trigger_run :
      (r : Rule F) (n : ℕ)
      → validate r ≡ none
      → r.trigger ≢ always
      → r.counter ≡ 0
      → (k : ℕ) × (r.trigger_n ≡ pos (suc k))
        × ((trigger_run n r).1 ≡ fires_among r.trigger (pos (suc k)) n)
  validate-trigger_run r n h t c =
      let (k, e) = positive r.trigger_n (validate-positive r h t) in
      let fires = (trigger_run n r).1 in
      (k, e, fires_total r.trigger r.trigger_n r.counter n fires k (trigger_run-count n r).0 e c t)
