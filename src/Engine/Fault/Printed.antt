-- ===== src/Engine/Fault/Printed.antt =====
-- internal/engine/fault.go: the segments of what String writes.
use mathlib.Core.List.{append_assoc}
use faultbox.Base.{◌≡◌, refl, ap, ◌∙◌, true, false, some, [], ◌∷◌, ◌++◌, Bytes, codes, arith}
use faultbox.Base.Int.{pos, ltb_ℤ}
use faultbox.Base.Split.{
  no_bytes, trim_space, trim_last, split_n, lacks, no_space, tail_of, split_n-first,
  split_n-tail_of, trim_last-append,
}
use faultbox.Engine.Fault.{
  FaultText, FaultAction, action_deny, action_delay, FaultRule, parsed, errno_names,
}
use faultbox.Engine.Fault.Parse.{
  parse_probability, in_range, errno_name, percent_text, action_text, path_text, trigger_text,
  parse_params, parse_parts, parse_fault_rule,
}
use faultbox.Engine.Fault.Segments.{
  plain, FaultTextLaws, TriggerOk, PathOk, path_segments, trigger_segments, plain-lacks,
  plain-trim_space, plain-append, trigger_text-segments, path_text-segments, trigger_segments-lacks,
  path_segments-lacks, length-trigger_segments, length-path_segments,
}
use faultbox.Engine.Fault.Errno.{numbered}

module _ (T : FaultText) where
  -- A probability that `%.0f` writes in full: whole percents.
  unfoldable pub WholePercent : T.Float → Type 0
  WholePercent p =
      (percent : T.Float) × (T.parse_float (T.format_percent p) ≡ some percent)
      × (T.hundredth percent ≡ p)
      × (T.out_of_range p ≡ false)

  -- The syscall's name stands in front of the first `=`.
  unfoldable pub NameOk : Bytes → Type 0
  NameOk name = (no_bytes name ≡ false) × (lacks 61 name ≡ true) × (trim_space name ≡ name)

  -- What the text of a rule can say, besides its action.
  unfoldable pub ActionOk : FaultRule T.Float → FaultAction → Type 0
  unfolding PathOk numbered
  ActionOk r action_deny =
      (numbered T r.errno errno_names ≡ true) × (r.delay ≡ pos 0) × PathOk r.path_glob
  ActionOk r action_delay = (r.errno ≡ 0) × (ltb_ℤ r.delay (pos 0) ≡ false) × (r.path_glob ≡ [])
  ActionOk r _ = ⊥

  unfoldable pub Printable : FaultRule T.Float → Type 0
  unfolding WholePercent NameOk ActionOk TriggerOk
  Printable r =
      NameOk r.syscall
      × WholePercent r.probability
      × TriggerOk r.trigger r.trigger_n
      × ActionOk r r.action

module _ (T : FaultText) (laws : FaultTextLaws T) where
  percent-plain : (p : T.Float) → plain (percent_text T p) ≡ true
  percent-plain p =
      plain-append (T.format_percent p) (37 ∷ []) (laws.format_percent_plain p)
        (unfold plain lacks no_space in refl)

  pub parse_probability-text :
      (p : T.Float) → WholePercent T p → parse_probability T (percent_text T p) ≡ parsed p
  unfolding parse_probability WholePercent
  parse_probability-text p h =
      let number : trim_last 37 (trim_space (percent_text T p)) ≡ T.format_percent p =
        ap (trim_last 37) (plain-trim_space (percent_text T p) (percent-plain p))
        ∙ trim_last-append 37 (T.format_percent p) in
      let range : in_range T (some h.0) ≡ parsed p = rw (h.2, h.3) refl in
      ap (λ s. in_range T (T.parse_float s)) number ∙ ap (in_range T) h.1 ∙ range

  pub parse_fault_rule-parts :
      (name params : Bytes)
      → NameOk T name
      → parse_fault_rule T (name ++ 61 ∷ params) ≡ parse_params T name (split_n 4 58 params)
  unfolding parse_fault_rule NameOk
  parse_fault_rule-parts name params h =
      ap (parse_parts T) (split_n-first 0 61 name params h.1)
      ∙ (unfold split_n in rw (h.2, h.0) refl)

  pub deny-segments :
      (r : FaultRule T.Float)
      → plain (errno_name T r.errno errno_names) ≡ true
      → PathOk r.path_glob
      → split_n 4 58 (
          action_text T r action_deny
          ++ (path_text T action_deny r.path_glob ++ trigger_text T r.trigger r.trigger_n))
        ≡ errno_name T r.errno errno_names
          ∷ percent_text T r.probability
          ∷ (path_segments r.path_glob ++ trigger_segments T laws r.trigger r.trigger_n)
  unfolding action_text
  deny-segments r plain_name ok =
      let name = errno_name T r.errno errno_names in
      let percent = percent_text T r.probability in
      let rest = path_segments r.path_glob ++ trigger_segments T laws r.trigger r.trigger_n in
      let flat : (name ++ 58 ∷ percent)
            ++ (path_text T action_deny r.path_glob ++ trigger_text T r.trigger r.trigger_n)
          ≡ name ++ tail_of 58 (percent ∷ rest) =
        unfold tail_of in
        append_assoc name (58 ∷ percent)
          (path_text T action_deny r.path_glob ++ trigger_text T r.trigger r.trigger_n)
        ∙ ap (λ t. name ++ (58 ∷ (percent ++ t)))
            (path_text-segments T laws r.path_glob r.trigger r.trigger_n) in
      ap (split_n 4 58) flat
      ∙ split_n-tail_of 4 58 name (percent ∷ rest)
          (omega (arith, length-path_segments T laws r.path_glob r.trigger r.trigger_n))
          (plain-lacks name plain_name)
          (
            plain-lacks percent (percent-plain r.probability),
            path_segments-lacks T laws r.path_glob r.trigger r.trigger_n ok,
          )

  pub delay-segments :
      (r : FaultRule T.Float)
      → split_n 4 58 (
          action_text T r action_delay
          ++ (path_text T action_delay r.path_glob ++ trigger_text T r.trigger r.trigger_n))
        ≡ codes "delay"
          ∷ T.format_duration r.delay
          ∷ percent_text T r.probability
          ∷ trigger_segments T laws r.trigger r.trigger_n
  unfolding action_text path_text
  delay-segments r =
      let duration = T.format_duration r.delay in
      let percent = percent_text T r.probability in
      let rest = trigger_segments T laws r.trigger r.trigger_n in
      let flat : (codes "delay:" ++ (duration ++ 58 ∷ percent))
            ++ trigger_text T r.trigger r.trigger_n
          ≡ codes "delay" ++ tail_of 58 (duration ∷ percent ∷ rest) =
        unfold tail_of in
        ap (λ t. codes "delay:" ++ t)
          (append_assoc duration (58 ∷ percent) (trigger_text T r.trigger r.trigger_n)
            ∙ ap (λ t. duration ++ (58 ∷ (percent ++ t)))
                (trigger_text-segments T laws r.trigger r.trigger_n)) in
      ap (split_n 4 58) flat
      ∙ split_n-tail_of 4 58 (codes "delay") (duration ∷ percent ∷ rest)
          (omega (arith, length-trigger_segments T laws r.trigger r.trigger_n))
          (unfold lacks in refl)
          (
            plain-lacks duration (laws.format_duration_plain r.delay),
            (
              plain-lacks percent (percent-plain r.probability),
              trigger_segments-lacks T laws r.trigger r.trigger_n,
            ),
          )
