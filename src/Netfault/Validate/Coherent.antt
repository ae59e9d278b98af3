-- ===== src/Netfault/Validate/Coherent.antt =====
-- internal/netfault/rule.go: what `Rule.Validate` asks of a rule, condition by condition.
use faultbox.Base.{
  ℕ, zero, suc, ◌+◌, ◌≡◌, ◌≢◌, refl, ap, sym, ◌∙◌, ◌↔◌, ◌⊎◌, inl, inr, Bool, true, false, not, ◌&&◌,
  ◌||◌, Option, none, String, str_eq, eq_iff, arith, Bool-cases,
}
use faultbox.Base.Int.{ℤ, pos, negsuc, leb_ℤ, ltb_ℤ}
use faultbox.Base.Float.{Float}
use faultbox.Netfault.Rule.{
  Action, pass_action, drop_action, delay_action, duplicate_action, reorder_action, corrupt_action,
  reset_action, window_action, Trigger, always, nth, after, every, Rule,
}
use faultbox.Netfault.Validate.{
  RuleError, check, is_always, action_error, common_error, validate, positive,
}

abbrev pub Positive : ℤ → Type 0
Positive k = (m : ℕ) × (k ≡ pos (suc m))

-- What an action asks of its own settings.
abbrev pub ActionCoherent : {F : Type 0} → Action → Rule F → Type 0
ActionCoherent delay_action r = Positive r.delay
ActionCoherent reorder_action r = Positive r.reorder_by
ActionCoherent duplicate_action r = (m : ℕ) × (r.duplicate_count ≡ pos (2 + m))
ActionCoherent corrupt_action r =
    Positive r.corrupt_length
    × ((m : ℕ) × (r.corrupt_offset ≡ pos m))
    × (r.corrupt_mode ≡ "flip" ⊎ r.corrupt_mode ≡ "zero" ⊎ r.corrupt_mode ≡ "random")
    × (r.checksum ≡ "fix" ⊎ r.checksum ≡ "break")
ActionCoherent reset_action r = r.match.proto ≡ "" ⊎ r.match.proto ≡ "tcp"
ActionCoherent window_action r = r.match.proto ≡ "" ⊎ r.match.proto ≡ "tcp"
ActionCoherent pass_action r = Unit
ActionCoherent drop_action r = Unit

-- What every rule is asked for. A capped rule has a probability strictly between 0 and 1 and is not
-- stochastic.
pub record Common {F : Type 0} (fl : Float F) (r : Rule F) : Type 0 where
  pub not_below_zero : fl.lt r.probability fl.zero_f ≡ false
  pub not_above_one : fl.lt fl.one_f r.probability ≡ false
  pub capped_above_zero : Positive r.max_fires → fl.le r.probability fl.zero_f ≡ false
  pub capped_below_one : Positive r.max_fires → fl.le fl.one_f r.probability ≡ false
  pub capped_not_stochastic : Positive r.max_fires → r.mode ≢ "stochastic"
  pub counted : r.trigger ≢ always → Positive r.trigger_n

abbrev pub IsCoherent : {F : Type 0} → Float F → Rule F → Type 0
IsCoherent fl r = ActionCoherent r.action r × Common fl r

check_iff :
    (bad : Bool) (e : RuleError) (rest : Option RuleError) (P Q : Type 0)
    → ((bad ≡ false) ↔ P)
    → ((rest ≡ none) ↔ Q)
    → (check bad e rest ≡ none) ↔ (P × Q)
check_iff true e rest P Q p q = (λ h. absurd (cc), λ h. absurd (ground (arith, p.1 h.0)))
check_iff false e rest P Q p q = (λ h. (p.0 refl, q.0 h), λ h. q.1 h.1)

positive_iff : (k : ℤ) → (leb_ℤ k (pos 0) ≡ false) ↔ Positive k
positive_iff k = (positive k, λ (m, e). ap (λ j. leb_ℤ j (pos 0)) e ∙ ground arith)

two_iff : (k : ℤ) → (ltb_ℤ k (pos 2) ≡ false) ↔ ((m : ℕ) × (k ≡ pos (2 + m)))
two_iff k = (two k, λ (m, e). ap (λ j. ltb_ℤ j (pos 2)) e ∙ ground arith)
  where
    two : (j : ℤ) → ltb_ℤ j (pos 2) ≡ false → (m : ℕ) × (j ≡ pos (2 + m))
    two (negsuc j) h = absurd (cc)
    two (pos zero) h = absurd (cc)
    two (pos (suc zero)) h = absurd (cc)
    two (pos (suc (suc j))) h = (j, ap pos (omega arith))

offset_iff : (k : ℤ) → (ltb_ℤ k (pos 0) ≡ false) ↔ ((m : ℕ) × (k ≡ pos m))
offset_iff k = (offset k, λ (m, e). ap (λ j. ltb_ℤ j (pos 0)) e ∙ ground arith)
  where
    offset : (j : ℤ) → ltb_ℤ j (pos 0) ≡ false → (m : ℕ) × (j ≡ pos m)
    offset (negsuc j) h = absurd (cc)
    offset (pos j) h = (j, refl)

one_of_three :
    (s a b c : String)
    → (not (str_eq s a || (str_eq s b || str_eq s c)) ≡ false) ↔ (s ≡ a ⊎ s ≡ b ⊎ s ≡ c)
one_of_three s a b c = ground (arith, eq_iff s a, eq_iff s b, eq_iff s c)

one_of_two : (s a b : String) → (not (str_eq s a || str_eq s b) ≡ false) ↔ (s ≡ a ⊎ s ≡ b)
one_of_two s a b = ground (arith, eq_iff s a, eq_iff s b)

neither_iff : (s a b : String) → ((not (str_eq s a) && not (str_eq s b)) ≡ false) ↔ (s ≡ a ⊎ s ≡ b)
neither_iff s a b = ground (arith, eq_iff s a, eq_iff s b)

both_false : (a b : Bool) → ((a || b) ≡ false) ↔ ((a ≡ false) × (b ≡ false))
both_false a b = ground arith

capped_iff : (m : ℤ) (a : Bool) → ((ltb_ℤ (pos 0) m && a) ≡ false) ↔ (Positive m → a ≡ false)
capped_iff m a = elim (Bool-cases (leb_ℤ m (pos 0))) [
  | inl low ↦
      let off : ltb_ℤ (pos 0) m ≡ false = ap not low in
      (λ h k. absurd (ground (arith, low, (positive_iff m).1 k)), λ h. ap (λ t. t && a) off)
  | inr high ↦
      let on : ltb_ℤ (pos 0) m ≡ true = ap not high in
      (λ h k. sym (ap (λ t. t && a) on) ∙ h, λ h. ap (λ t. t && a) on ∙ h ((positive_iff m).0 high))
]

stochastic_iff :
    (m : ℤ) (mode : String)
    → ((str_eq mode "stochastic" && ltb_ℤ (pos 0) m) ≡ false) ↔ (Positive m → mode ≢ "stochastic")
stochastic_iff m mode =
    let (to, back) = capped_iff m (str_eq mode "stochastic") in
    (
      λ h k e. absurd (ground (arith, to (ground (arith, h)) k, eq_iff mode "stochastic", e)),
      λ h. ground (arith, back (λ k. ground (arith, h k, eq_iff mode "stochastic"))),
    )

counted_iff :
    (t : Trigger) (n : ℤ)
    → ((not (is_always t) && leb_ℤ n (pos 0)) ≡ false) ↔ (t ≢ always → Positive n)
counted_iff always n = (λ h ne. absurd (ne refl), λ h. refl)
counted_iff nth n = (λ h ne. (positive_iff n).0 h, λ h. (positive_iff n).1 (h (λ e. absurd cc)))
counted_iff after n = (λ h ne. (positive_iff n).0 h, λ h. (positive_iff n).1 (h (λ e. absurd cc)))
counted_iff every n = (λ h ne. (positive_iff n).0 h, λ h. (positive_iff n).1 (h (λ e. absurd cc)))

module _ {F : Type 0} where
  -- The checks on an action fail exactly if its settings are not coherent.
  action_error_iff :
      (a : Action) (r : Rule F) (rest : Option RuleError) (Q : Type 0)
      → ((rest ≡ none) ↔ Q)
      → (action_error a r rest ≡ none) ↔ (ActionCoherent a r × Q)
  action_error_iff delay_action r rest Q q = check_iff _ _ rest _ Q (positive_iff r.delay) q
  action_error_iff reorder_action r rest Q q = check_iff _ _ rest _ Q (positive_iff r.reorder_by) q
  action_error_iff duplicate_action r rest Q q =
      check_iff _ _ rest _ Q (two_iff r.duplicate_count) q
  action_error_iff corrupt_action r rest Q q =
      let (to, back) = check_iff _ _ _ _ _ (positive_iff r.corrupt_length) (
        check_iff _ _ _ _ _ (offset_iff r.corrupt_offset) (
          check_iff _ _ _ _ _ (one_of_three r.corrupt_mode "flip" "zero" "random")
            (check_iff _ _ rest _ Q (one_of_two r.checksum "fix" "break") q))) in
      (
        λ h. let (a, (b, (c, (d, e)))) = to h in ((a, b, c, d), e),
        λ h. let ((a, b, c, d), e) = h in back (a, (b, (c, (d, e)))),
      )
  action_error_iff reset_action r rest Q q =
      check_iff _ _ rest _ Q (neither_iff r.match.proto "" "tcp") q
  action_error_iff window_action r rest Q q =
      check_iff _ _ rest _ Q (neither_iff r.match.proto "" "tcp") q
  action_error_iff pass_action r rest Q q = (λ h. (tt, q.0 h), λ h. q.1 h.1)
  action_error_iff drop_action r rest Q q = (λ h. (tt, q.0 h), λ h. q.1 h.1)

  common_error_iff : (fl : Float F) (r : Rule F) → (common_error fl r ≡ none) ↔ Common fl r
  common_error_iff fl r =
      let p = r.probability in
      let m = r.max_fires in
      let (to, back) = check_iff _ _ _ _ _ (both_false (fl.lt p fl.zero_f) (fl.lt fl.one_f p)) (
        check_iff _ _ _ _ _ (capped_iff m (fl.le p fl.zero_f || fl.le fl.one_f p)) (
          check_iff _ _ _ _ _ (stochastic_iff m r.mode) (
            check_iff _ _ none _ Unit (counted_iff r.trigger r.trigger_n) (λ h. tt, λ h. refl)))) in
      (
        λ h.
            let ((low, high), (capped, (mode, (count, _)))) = to h in
            let within = λ (k : Positive m).
              (both_false (fl.le p fl.zero_f) (fl.le fl.one_f p)).0 (capped k) in
            record {
              not_below_zero = low;
              not_above_one = high;
              capped_above_zero = λ k. (within k).0;
              capped_below_one = λ k. (within k).1;
              capped_not_stochastic = mode;
              counted = count;
            },
        λ c. back (
          (c.not_below_zero, c.not_above_one),
          (
            λ k.
                (both_false (fl.le p fl.zero_f) (fl.le fl.one_f p)).1
                  (c.capped_above_zero k, c.capped_below_one k),
            (c.capped_not_stochastic, (c.counted, tt)),
          ),
        ),
      )

  -- `Rule.Validate` finds no error exactly in a coherent rule.
  pub validate_iff : ⦃fl : Float F⦄ (r : Rule F) → (validate r ≡ none) ↔ IsCoherent fl r
  unfolding validate
  validate_iff ⦃fl⦄ r =
      action_error_iff r.action r (common_error fl r) (Common fl r) (common_error_iff fl r)
