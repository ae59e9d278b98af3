-- ===== src/Engine/Fault/Parse.antt =====
-- internal/engine/fault.go: ParseFaultRule with its helpers, ParseFaultRules, and String.
use faultbox.Base.{
  ℕ, Bool, ◌||◌, Option, none, some, List, [], ◌∷◌, ◌++◌, String, Bytes, codes, has_prefix, drop,
  ◌==◌, if◌then◌else◌,
}
use faultbox.Base.Int.{ℤ, pos, ltb_ℤ}
use faultbox.Base.Split.{no_bytes, bytes_eq, trim_space, trim_last, upper, lower, split_n}
use faultbox.Engine.Fault.{
  FaultText, FaultAction, action_deny, action_delay, FaultTrigger, trigger_always, trigger_nth,
  trigger_after, FaultRule, ParseError, no_equals, empty_syscall, no_params, delay_incomplete,
  bad_duration, negative_delay, unknown_errno, bad_probability, probability_range, bad_nth,
  bad_after, Parsed, parsed, refused, errno_names,
}

-- `if err != nil { return …, err }`
abbrev pub then_parse {ℓ κ} : {A : Type ℓ} {B : Type κ} → Parsed A → (A → Parsed B) → Parsed B
then_parse (parsed a) next = next a
then_parse (refused err) next = refused err

abbrev pub nth_prefix : Bytes
nth_prefix = codes "nth="

abbrev pub after_prefix : Bytes
after_prefix = codes "after="

unfoldable pub is_trigger_segment : Bytes → Bool
is_trigger_segment s = has_prefix s nth_prefix || has_prefix s after_prefix

-- An `Atoi` that failed, or gave less than `least`, is refused.
abbrev pub at_least : ℤ → ParseError → FaultTrigger → Option ℤ → Parsed (FaultTrigger × ℤ)
at_least least err trigger none = refused err
at_least least err trigger (some n) = if ltb_ℤ n least then refused err else parsed (trigger, n)

module _ (T : FaultText) where
  unfoldable pub parse_trigger : List Bytes → Parsed (FaultTrigger × ℤ)
  parse_trigger [] = parsed (trigger_always, pos 0)
  parse_trigger (raw ∷ segments) =
      let seg = trim_space raw in
      let rest = parse_trigger segments in
      if no_bytes seg
      then rest
      else if has_prefix seg nth_prefix
      then at_least (pos 1) bad_nth trigger_nth (T.atoi (drop 4 seg))
      else if has_prefix seg after_prefix
      then at_least (pos 0) bad_after trigger_after (T.atoi (drop 6 seg))
      else rest

  abbrev pub in_range : Option T.Float → Parsed T.Float
  in_range none = refused bad_probability
  in_range (some percent) =
      if T.out_of_range (T.hundredth percent)
      then refused probability_range
      else parsed (T.hundredth percent)

  -- `probStr` and what is made of it.
  unfoldable pub parse_probability : Bytes → Parsed T.Float
  parse_probability segment = in_range (T.parse_float (trim_last 37 (trim_space segment)))

  abbrev pub not_negative : Option ℤ → Parsed ℤ
  not_negative none = refused bad_duration
  not_negative (some d) = if ltb_ℤ d (pos 0) then refused negative_delay else parsed d

  abbrev pub delay_rule : Bytes → ℤ → T.Float → FaultTrigger × ℤ → FaultRule T.Float
  delay_rule syscall d prob trigger = record {
    syscall = syscall;
    action = action_delay;
    errno = 0;
    delay = d;
    probability = prob;
    path_glob = [];
    trigger = trigger.0;
    trigger_n = trigger.1;
  }

  unfoldable pub parse_delay_rule : Bytes → List Bytes → Parsed (FaultRule T.Float)
  unfolding parse_trigger parse_probability
  parse_delay_rule syscall [] = refused delay_incomplete
  parse_delay_rule syscall (duration ∷ []) = refused delay_incomplete
  parse_delay_rule syscall (duration ∷ percent ∷ more) =
      then_parse (not_negative (T.parse_duration (trim_space duration))) λ d.
        then_parse (parse_probability percent) λ prob.
          then_parse (parse_trigger more) λ trigger. parsed (delay_rule syscall d prob trigger)

  unfoldable pub find_errno : Bytes → List String → Option ℕ
  find_errno name [] = none
  find_errno name (known ∷ more) =
      let rest = find_errno name more in
      if bytes_eq (codes known) name then some (T.errno_number known) else rest

  unfoldable pub errno_by_name : Bytes → Option ℕ
  unfolding find_errno
  errno_by_name name = find_errno (upper name) errno_names

  -- The loop over the remaining segments: the last path pattern, and the triggers.
  unfoldable pub path_of : Bytes → List Bytes → Bytes
  path_of path [] = path
  path_of path (raw ∷ segments) =
      let seg = trim_space raw in
      path_of (if is_trigger_segment seg || no_bytes seg then path else seg) segments

  unfoldable pub triggers_of : List Bytes → List Bytes
  triggers_of [] = []
  triggers_of (raw ∷ segments) =
      let seg = trim_space raw in
      let rest = triggers_of segments in if is_trigger_segment seg then seg ∷ rest else rest

  abbrev pub known_errno : Option ℕ → Parsed ℕ
  known_errno none = refused unknown_errno
  known_errno (some e) = parsed e

  abbrev pub deny_rule : Bytes → ℕ → T.Float → Bytes → FaultTrigger × ℤ → FaultRule T.Float
  deny_rule syscall e prob path trigger = record {
    syscall = syscall;
    action = action_deny;
    errno = e;
    delay = pos 0;
    probability = prob;
    path_glob = path;
    trigger = trigger.0;
    trigger_n = trigger.1;
  }

  unfoldable pub parse_deny_rule : Bytes → Bytes → Bytes → List Bytes → Parsed (FaultRule T.Float)
  unfolding parse_trigger parse_probability errno_by_name path_of triggers_of
  parse_deny_rule syscall errno percent more =
      then_parse (known_errno (errno_by_name (trim_space errno))) λ e.
        then_parse (parse_probability percent) λ prob.
          then_parse (parse_trigger (triggers_of more))
            λ trigger. parsed (deny_rule syscall e prob (path_of [] more) trigger)

  abbrev pub parse_params : Bytes → List Bytes → Parsed (FaultRule T.Float)
  parse_params syscall [] = refused no_params
  parse_params syscall (action ∷ []) = refused no_params
  parse_params syscall (action ∷ param ∷ more) =
      if bytes_eq (lower (trim_space action)) (codes "delay")
      then parse_delay_rule syscall (param ∷ more)
      else parse_deny_rule syscall action param more

  abbrev pub parse_parts : List Bytes → Parsed (FaultRule T.Float)
  parse_parts [] = refused no_equals
  parse_parts (name ∷ []) = refused no_equals
  parse_parts (name ∷ params ∷ more) =
      if no_bytes (trim_space name)
      then refused empty_syscall
      else parse_params (trim_space name) (split_n 4 58 params)

  unfoldable pub parse_fault_rule : Bytes → Parsed (FaultRule T.Float)
  unfolding parse_delay_rule parse_deny_rule
  parse_fault_rule s = parse_parts (split_n 1 61 s)

  unfoldable pub parse_fault_rules : List Bytes → Parsed (List (FaultRule T.Float))
  unfolding parse_fault_rule
  parse_fault_rules [] = parsed []
  parse_fault_rules (s ∷ rules) =
      then_parse (parse_fault_rule s)
        λ rule. then_parse (parse_fault_rules rules) λ more. parsed (rule ∷ more)

  -- `errnoName`: the names' numbers differ, so the order of the map does not matter.
  unfoldable pub errno_name : ℕ → List String → Bytes
  errno_name e [] = codes "errno(" ++ (T.itoa (pos e) ++ codes ")")
  errno_name e (known ∷ more) =
      let rest = errno_name e more in if T.errno_number known == e then codes known else rest

  abbrev pub percent_text : T.Float → Bytes
  percent_text prob = T.format_percent prob ++ 37 ∷ []

  unfoldable pub action_text : FaultRule T.Float → FaultAction → Bytes
  unfolding errno_name
  action_text r action_delay =
      codes "delay:" ++ (T.format_duration r.delay ++ 58 ∷ percent_text r.probability)
  action_text r _ = errno_name r.errno errno_names ++ 58 ∷ percent_text r.probability

  unfoldable pub path_text : FaultAction → Bytes → Bytes
  path_text action_delay path = []
  path_text _ path = if no_bytes path then [] else 58 ∷ path

  unfoldable pub trigger_text : FaultTrigger → ℤ → Bytes
  trigger_text trigger_always n = []
  trigger_text trigger_nth n = 58 ∷ (nth_prefix ++ T.itoa n)
  trigger_text trigger_after n = 58 ∷ (after_prefix ++ T.itoa n)

  -- `String`
  unfoldable pub rule_text : FaultRule T.Float → Bytes
  unfolding action_text path_text trigger_text
  rule_text r =
      r.syscall
      ++ 61
        ∷ (action_text r r.action
            ++ (path_text r.action r.path_glob ++ trigger_text r.trigger r.trigger_n))
