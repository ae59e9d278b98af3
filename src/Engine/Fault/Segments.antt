-- ===== src/Engine/Fault/Segments.antt =====
-- internal/engine/fault.go: the segments of a rule's text behind its probability.
use faultbox.Base.{
  ◌≤◌, ◌≡◌, refl, sym, ap, Bool, true, false, ◌&&◌, some, List, [], ◌∷◌, ◌++◌, Bytes, has_prefix,
  length, All, arith,
}
use mathlib.Core.List.{append-nil}
use faultbox.Base.Int.{ℤ, pos, ltb_ℤ}
use faultbox.Base.Split.{
  trim_space, lacks, no_space, tail_of, trim_space-no_space, lacks-append, no_space-append,
}
use faultbox.Engine.Fault.{
  FaultText, action_deny, FaultTrigger, trigger_always, trigger_nth, trigger_after, parsed,
}
use faultbox.Engine.Fault.Parse.{
  nth_prefix, after_prefix, is_trigger_segment, parse_trigger, path_of, triggers_of, path_text,
  trigger_text,
}

-- A text without white space and without `:`.
unfoldable pub plain : Bytes → Bool
unfolding lacks no_space
plain s = lacks 58 s && no_space s

-- What the texts of numbers are documented to be: they are read back, and have neither white space
-- nor `:` in them.
pub record FaultTextLaws (T : FaultText) : Type 0 where
  pub format_percent_plain : (p : T.Float) → plain (T.format_percent p) ≡ true
  pub format_duration_plain : (d : ℤ) → plain (T.format_duration d) ≡ true
  pub itoa_plain : (n : ℤ) → plain (T.itoa n) ≡ true
  pub parse_duration_back : (d : ℤ) → T.parse_duration (T.format_duration d) ≡ some d
  pub atoi_back : (n : ℤ) → T.atoi (T.itoa n) ≡ some n

-- A trigger with a count that the parser takes; no trigger has count 0.
unfoldable pub TriggerOk : FaultTrigger → ℤ → Type 0
TriggerOk trigger_always n = n ≡ pos 0
TriggerOk trigger_nth n = ltb_ℤ n (pos 1) ≡ false
TriggerOk trigger_after n = ltb_ℤ n (pos 0) ≡ false

-- A path pattern that stands in one segment and is not taken for a trigger.
unfoldable pub PathOk : Bytes → Type 0
PathOk path = (lacks 58 path ≡ true) × (trim_space path ≡ path) × (is_trigger_segment path ≡ false)

abbrev pub path_segments : Bytes → List Bytes
path_segments [] = []
path_segments (c ∷ s) = (c ∷ s) ∷ []

pub plain-lacks : (s : Bytes) → plain s ≡ true → lacks 58 s ≡ true
unfolding plain
plain-lacks s h = ground (arith, h)

plain-no_space : (s : Bytes) → plain s ≡ true → no_space s ≡ true
unfolding plain
plain-no_space s h = ground (arith, h)

pub plain-trim_space : (s : Bytes) → plain s ≡ true → trim_space s ≡ s
plain-trim_space s h = trim_space-no_space s (plain-no_space s h)

pub plain-append : (s t : Bytes) → plain s ≡ true → plain t ≡ true → plain (s ++ t) ≡ true
unfolding plain
plain-append s t hs ht = ground (
  arith,
  lacks-append 58 s t (plain-lacks s hs) (plain-lacks t ht),
  no_space-append s t (plain-no_space s hs) (plain-no_space t ht),
)

module _ (T : FaultText) (laws : FaultTextLaws T) where
  abbrev pub trigger_segments : FaultTrigger → ℤ → List Bytes
  trigger_segments trigger_always n = []
  trigger_segments trigger_nth n = (nth_prefix ++ T.itoa n) ∷ []
  trigger_segments trigger_after n = (after_prefix ++ T.itoa n) ∷ []

  nth-plain : (n : ℤ) → plain (nth_prefix ++ T.itoa n) ≡ true
  nth-plain n =
      plain-append nth_prefix (T.itoa n) (unfold plain lacks no_space in refl) (laws.itoa_plain n)

  after-plain : (n : ℤ) → plain (after_prefix ++ T.itoa n) ≡ true
  after-plain n =
      plain-append after_prefix (T.itoa n) (unfold plain lacks no_space in refl) (laws.itoa_plain n)

  pub parse_trigger-segments :
      (trigger : FaultTrigger) (n : ℤ)
      → TriggerOk trigger n
      → parse_trigger T (trigger_segments trigger n) ≡ parsed (trigger, n)
  unfolding TriggerOk parse_trigger has_prefix
  parse_trigger-segments trigger_always n h = ap (λ m. parsed (trigger_always, m)) (sym h)
  parse_trigger-segments trigger_nth n h =
      rw (plain-trim_space (nth_prefix ++ T.itoa n) (nth-plain n), laws.atoi_back n, h) refl
  parse_trigger-segments trigger_after n h =
      rw (plain-trim_space (after_prefix ++ T.itoa n) (after-plain n), laws.atoi_back n, h) refl

  pub triggers_of-segments :
      (trigger : FaultTrigger) (n : ℤ)
      → triggers_of T (trigger_segments trigger n) ≡ trigger_segments trigger n
  unfolding triggers_of is_trigger_segment has_prefix
  triggers_of-segments trigger_always n = refl
  triggers_of-segments trigger_nth n =
      rw (plain-trim_space (nth_prefix ++ T.itoa n) (nth-plain n)) refl
  triggers_of-segments trigger_after n =
      rw (plain-trim_space (after_prefix ++ T.itoa n) (after-plain n)) refl

  pub path_of-triggers :
      (path : Bytes) (trigger : FaultTrigger) (n : ℤ)
      → path_of T path (trigger_segments trigger n) ≡ path
  unfolding path_of is_trigger_segment has_prefix
  path_of-triggers path trigger_always n = refl
  path_of-triggers path trigger_nth n =
      rw (plain-trim_space (nth_prefix ++ T.itoa n) (nth-plain n)) refl
  path_of-triggers path trigger_after n =
      rw (plain-trim_space (after_prefix ++ T.itoa n) (after-plain n)) refl

  pub path_of-segments :
      (path : Bytes) (trigger : FaultTrigger) (n : ℤ)
      → PathOk path
      → path_of T [] (path_segments path ++ trigger_segments trigger n) ≡ path
  unfolding path_of PathOk
  path_of-segments [] trigger n h = path_of-triggers [] trigger n
  path_of-segments (c ∷ s) trigger n h = rw (path_of, h.1, h.2) (path_of-triggers (c ∷ s) trigger n)

  pub triggers_of-path :
      (path : Bytes) (trigger : FaultTrigger) (n : ℤ)
      → PathOk path
      → triggers_of T (path_segments path ++ trigger_segments trigger n)
        ≡ trigger_segments trigger n
  unfolding triggers_of PathOk
  triggers_of-path [] trigger n h = triggers_of-segments trigger n
  triggers_of-path (c ∷ s) trigger n h = rw (h.1, h.2) (triggers_of-segments trigger n)

  pub trigger_text-segments :
      (trigger : FaultTrigger) (n : ℤ)
      → trigger_text T trigger n ≡ tail_of 58 (trigger_segments trigger n)
  unfolding trigger_text tail_of
  trigger_text-segments trigger_always n = refl
  trigger_text-segments trigger_nth n = ap (λ s. 58 ∷ s) (sym (append-nil (nth_prefix ++ T.itoa n)))
  trigger_text-segments trigger_after n =
      ap (λ s. 58 ∷ s) (sym (append-nil (after_prefix ++ T.itoa n)))

  pub path_text-segments :
      (path : Bytes) (trigger : FaultTrigger) (n : ℤ)
      → path_text T action_deny path ++ trigger_text T trigger n
        ≡ tail_of 58 (path_segments path ++ trigger_segments trigger n)
  unfolding path_text tail_of
  path_text-segments [] trigger n = trigger_text-segments trigger n
  path_text-segments (c ∷ s) trigger n =
      ap (λ t. 58 ∷ ((c ∷ s) ++ t)) (trigger_text-segments trigger n)

  pub trigger_segments-lacks :
      (trigger : FaultTrigger) (n : ℤ) → All (λ s. lacks 58 s ≡ true) (trigger_segments trigger n)
  trigger_segments-lacks trigger_always n = tt
  trigger_segments-lacks trigger_nth n = (plain-lacks (nth_prefix ++ T.itoa n) (nth-plain n), tt)
  trigger_segments-lacks trigger_after n =
      (plain-lacks (after_prefix ++ T.itoa n) (after-plain n), tt)

  pub path_segments-lacks :
      (path : Bytes) (trigger : FaultTrigger) (n : ℤ)
      → PathOk path
      → All (λ s. lacks 58 s ≡ true) (path_segments path ++ trigger_segments trigger n)
  unfolding PathOk
  path_segments-lacks [] trigger n h = trigger_segments-lacks trigger n
  path_segments-lacks (c ∷ s) trigger n h = (h.0, trigger_segments-lacks trigger n)

  pub length-trigger_segments :
      (trigger : FaultTrigger) (n : ℤ) → length (trigger_segments trigger n) ≤ 1
  length-trigger_segments trigger_always n = omega arith
  length-trigger_segments trigger_nth n = omega arith
  length-trigger_segments trigger_after n = omega arith

  pub length-path_segments :
      (path : Bytes) (trigger : FaultTrigger) (n : ℤ)
      → length (path_segments path ++ trigger_segments trigger n) ≤ 2
  length-path_segments [] trigger n = omega (arith, length-trigger_segments trigger n)
  length-path_segments (c ∷ s) trigger n = omega (arith, length-trigger_segments trigger n)
