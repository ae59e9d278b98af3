-- ===== src/Netfault/Validate/Rules.antt =====
-- internal/netfault/rule.go, `NewRuleSet`: which lists of rules it installs.
use faultbox.Base.{
  ℕ, suc, ◌+◌, ◌≡◌, refl, ap, ◌∙◌, ◌⊎◌, inl, inr, List, [], ◌∷◌, ◌++◌, none, some, arith, All,
  length, Option-cases,
}
use faultbox.Base.Float.{Float}
use faultbox.Netfault.Rule.{Rule}
use faultbox.Netfault.Validate.{RuleError, validate, first_error, new_rule_set, frozen, bad_rule}
use faultbox.Netfault.Validate.Coherent.{IsCoherent, validate_iff}

module _ {F : Type 0} where
  -- The loop of `NewRuleSet` from index `i`: it goes to the end of a list of coherent rules, and
  -- stops at the first one that is not.
  first_error-Coherent :
      ⦃fl : Float F⦄ (i : ℕ) (rs : List (Rule F))
      → ((first_error i rs ≡ none) × All (IsCoherent fl) rs)
        ⊎ ((pre post : List (Rule F)) × (r : Rule F) × (e : RuleError) × (rs ≡ pre ++ r ∷ post)
            × (first_error i rs ≡ some (i + length pre, e))
            × (validate r ≡ some e)
            × All (IsCoherent fl) pre
            × (IsCoherent fl r → ⊥))
  unfolding first_error
  first_error-Coherent i [] = inl (refl, tt)
  first_error-Coherent i (r ∷ rs) = elim (Option-cases (validate r)) [
    | inr (e, bad) ↦ inr (
      [],
      rs,
      r,
      e,
      refl,
      ground arith,
      bad,
      tt,
      λ c. let none_found = (validate_iff r).1 c in absurd cc,
    )
    | inl fine ↦
        let next : first_error i (r ∷ rs) ≡ first_error (i + 1) rs = ground arith in
        let coherent = (validate_iff r).0 fine in
        elim (first_error-Coherent (i + 1) rs) [
          | inl (end, all) ↦ inl (next ∙ end, (coherent, all))
          | inr (pre, post, q, e, split, stop, error, before, not_q) ↦
              let moved : some (i + 1 + length pre, e) ≡ some (i + suc (length pre), e) =
                ap (λ (k : ℕ). some (k, e)) (omega arith) in
              inr (
                r ∷ pre,
                post,
                q,
                e,
                ap (◌∷◌ r) split,
                next ∙ stop ∙ moved,
                error,
                (coherent, before),
                not_q,
              )
        ]
  ]

  -- Either all rules are coherent, and `NewRuleSet` installs the list as it was given; or it is
  -- refused with the index and the error of the first rule that is not coherent.
  pub new_rule_set-Coherent :
      ⦃fl : Float F⦄ (rs : List (Rule F))
      → ((new_rule_set rs ≡ frozen rs) × All (IsCoherent fl) rs)
        ⊎ ((pre post : List (Rule F)) × (r : Rule F) × (e : RuleError) × (rs ≡ pre ++ r ∷ post)
            × (new_rule_set rs ≡ bad_rule (length pre) e)
            × (validate r ≡ some e)
            × All (IsCoherent fl) pre
            × (IsCoherent fl r → ⊥))
  unfolding new_rule_set
  new_rule_set-Coherent rs = elim (first_error-Coherent 0 rs) [
    | inl (fine, all) ↦ inl (ground arith, all)
    | inr (pre, post, r, e, split, bad, error, before, not_r) ↦
        inr (pre, post, r, e, split, ground arith, error, before, not_r)
  ]
