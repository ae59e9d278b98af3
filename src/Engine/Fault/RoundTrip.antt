-- ===== src/Engine/Fault/RoundTrip.antt =====
-- internal/engine/fault.go: ParseFaultRule on what String writes.
use mathlib.Core.Path.{subst}
use faultbox.Base.{ℕ, ◌≡◌, refl, sym, ap, ◌∙◌, [], ◌∷◌, ◌++◌, Bytes, codes}
use faultbox.Base.Int.{ℤ, pos}
use faultbox.Base.Split.{trim_space}
use faultbox.Engine.Fault.{
  FaultText, FaultAction, action_deny, action_delay, action_hold, action_trace, FaultRule, parsed,
  errno_names,
}
use faultbox.Engine.Fault.Parse.{
  parse_delay_rule, parse_deny_rule, errno_name, percent_text, action_text, path_text, trigger_text,
  parse_params, parse_fault_rule, rule_text, delay_rule, deny_rule,
}
use faultbox.Engine.Fault.Segments.{
  FaultTextLaws, TriggerOk, path_segments, trigger_segments, plain-trim_space,
  parse_trigger-segments, path_of-segments, triggers_of-path,
}
use faultbox.Engine.Fault.Errno.{errno_name-ReadBack}
use faultbox.Engine.Fault.Printed.{
  WholePercent, NameOk, ActionOk, Printable, parse_probability-text, parse_fault_rule-parts,
  deny-segments, delay-segments,
}

module _ (T : FaultText) (laws : FaultTextLaws T) where
  parse-deny_text :
      (r : FaultRule T.Float)
      → NameOk T r.syscall
      → WholePercent T r.probability
      → TriggerOk r.trigger r.trigger_n
      → ActionOk T r action_deny
      → parse_fault_rule T (
          r.syscall
          ++ 61
            ∷ (action_text T r action_deny
                ++ (path_text T action_deny r.path_glob ++ trigger_text T r.trigger r.trigger_n)))
        ≡ parsed (deny_rule T r.syscall r.errno r.probability r.path_glob (r.trigger, r.trigger_n))
  unfolding ActionOk parse_deny_rule
  parse-deny_text r named whole counted ok =
      let name = errno_name T r.errno errno_names in
      let percent = percent_text T r.probability in
      let rest = path_segments r.path_glob ++ trigger_segments T laws r.trigger r.trigger_n in
      let back = errno_name-ReadBack T r.errno ok.0 in
      let trimmed = plain-trim_space name back.0 in
      let chosen : parse_params T r.syscall (name ∷ percent ∷ rest)
          ≡ parse_deny_rule T r.syscall name percent rest =
        rw (trimmed, back.1) refl in
      let read : parse_deny_rule T r.syscall name percent rest
          ≡ parsed
              (deny_rule T r.syscall r.errno r.probability r.path_glob (r.trigger, r.trigger_n)) =
        rw
          (
            parse_deny_rule,
            trimmed,
            back.2,
            parse_probability-text T laws r.probability whole,
            triggers_of-path T laws r.path_glob r.trigger r.trigger_n ok.2,
            parse_trigger-segments T laws r.trigger r.trigger_n counted,
            path_of-segments T laws r.path_glob r.trigger r.trigger_n ok.2,
          )
          refl in
      parse_fault_rule-parts T laws r.syscall
        (action_text T r action_deny
          ++ (path_text T action_deny r.path_glob ++ trigger_text T r.trigger r.trigger_n))
        named
      ∙ ap (parse_params T r.syscall) (deny-segments T laws r back.0 ok.2)
      ∙ chosen
      ∙ read

  parse-delay_text :
      (r : FaultRule T.Float)
      → NameOk T r.syscall
      → WholePercent T r.probability
      → TriggerOk r.trigger r.trigger_n
      → ActionOk T r action_delay
      → parse_fault_rule T (
          r.syscall
          ++ 61
            ∷ (action_text T r action_delay
                ++ (path_text T action_delay r.path_glob ++ trigger_text T r.trigger r.trigger_n)))
        ≡ parsed (delay_rule T r.syscall r.delay r.probability (r.trigger, r.trigger_n))
  unfolding ActionOk parse_delay_rule
  parse-delay_text r named whole counted ok =
      let duration = T.format_duration r.delay in
      let percent = percent_text T r.probability in
      let rest = trigger_segments T laws r.trigger r.trigger_n in
      let chosen : parse_params T r.syscall (codes "delay" ∷ duration ∷ percent ∷ rest)
          ≡ parse_delay_rule T r.syscall (duration ∷ percent ∷ rest) =
        unfold trim_space in refl in
      let read : parse_delay_rule T r.syscall (duration ∷ percent ∷ rest)
          ≡ parsed (delay_rule T r.syscall r.delay r.probability (r.trigger, r.trigger_n)) =
        rw
          (
            parse_delay_rule,
            plain-trim_space duration (laws.format_duration_plain r.delay),
            laws.parse_duration_back r.delay,
            ok.1,
            parse_probability-text T laws r.probability whole,
            parse_trigger-segments T laws r.trigger r.trigger_n counted,
          )
          refl in
      parse_fault_rule-parts T laws r.syscall
        (action_text T r action_delay
          ++ (path_text T action_delay r.path_glob ++ trigger_text T r.trigger r.trigger_n))
        named
      ∙ ap (parse_params T r.syscall) (delay-segments T laws r)
      ∙ chosen
      ∙ read

  parse-text_by_action :
      (action : FaultAction) (r : FaultRule T.Float)
      → r.action ≡ action
      → Printable T r
      → parse_fault_rule T (rule_text T r) ≡ parsed r
  unfolding Printable rule_text ActionOk
  parse-text_by_action action_deny r e h =
      let ok : ActionOk T r action_deny = subst (ActionOk T r) e h.3 in
      let with_action : FaultAction → ℤ → FaultRule T.Float = λ a d. record {
        syscall = r.syscall;
        action = a;
        errno = r.errno;
        delay = d;
        probability = r.probability;
        path_glob = r.path_glob;
        trigger = r.trigger;
        trigger_n = r.trigger_n;
      } in
      ap
        (λ a. parse_fault_rule T (
          r.syscall
          ++ 61
            ∷ (action_text T r a
                ++ (path_text T a r.path_glob ++ trigger_text T r.trigger r.trigger_n))))
        e
      ∙ parse-deny_text r h.0 h.1 h.2 ok
      ∙ ap (λ a. parsed (with_action a (pos 0))) (sym e)
      ∙ ap (λ d. parsed (with_action r.action d)) (sym ok.1)
  parse-text_by_action action_delay r e h =
      let ok : ActionOk T r action_delay = subst (ActionOk T r) e h.3 in
      let with_action : FaultAction → ℕ → Bytes → FaultRule T.Float = λ a n path. record {
        syscall = r.syscall;
        action = a;
        errno = n;
        delay = r.delay;
        probability = r.probability;
        path_glob = path;
        trigger = r.trigger;
        trigger_n = r.trigger_n;
      } in
      ap
        (λ a. parse_fault_rule T (
          r.syscall
          ++ 61
            ∷ (action_text T r a
                ++ (path_text T a r.path_glob ++ trigger_text T r.trigger r.trigger_n))))
        e
      ∙ parse-delay_text r h.0 h.1 h.2 ok
      ∙ ap (λ a. parsed (with_action a 0 [])) (sym e)
      ∙ ap (λ n. parsed (with_action r.action n [])) (sym ok.0)
      ∙ ap (λ path. parsed (with_action r.action r.errno path)) (sym ok.2)
  parse-text_by_action action_hold r e h = absurd (subst (ActionOk T r) e h.3)
  parse-text_by_action action_trace r e h = absurd (subst (ActionOk T r) e h.3)

  -- The parser reads a rule back from its own text, when the text can say it: a name of a syscall
  -- in front of the first `=`, a whole percentage, a trigger count that the parser takes, and
  -- either an error of the table and a path pattern in one segment, or a delay that is not
  -- negative.
  pub parse_fault_rule-rule_text :
      (r : FaultRule T.Float) → Printable T r → parse_fault_rule T (rule_text T r) ≡ parsed r
  parse_fault_rule-rule_text r h = parse-text_by_action r.action r refl h
