-- ===== src/Engine/Fault/Tests.antt =====
-- Tests of the rule text of internal/engine/fault.go, with numbers written in strokes.
use faultbox.Base.{
  ℕ, zero, suc, ◌≡◌, refl, true, false, some, [], ◌∷◌, Bytes, codes, str_eq, length, if◌then◌else◌,
  ◌==◌, ap, has_prefix, arith,
}
use faultbox.Base.Int.{ℤ, pos, negsuc}
use faultbox.Base.Split.{lacks, no_space, trim_space, split_n}
use faultbox.Engine.Fault.{FaultText, FaultRule, action_deny, trigger_nth, parsed, refused, bad_nth}
use faultbox.Engine.Fault.Parse.{
  parse_fault_rule, rule_text, parse_trigger, parse_probability, parse_deny_rule, errno_by_name,
  find_errno, path_of, triggers_of, errno_name, action_text, path_text, trigger_text,
  is_trigger_segment,
}
use faultbox.Engine.Fault.Segments.{plain, FaultTextLaws, TriggerOk, PathOk}
use faultbox.Engine.Fault.Errno.{numbered}
use faultbox.Engine.Fault.Printed.{Printable, NameOk, WholePercent, ActionOk}
use faultbox.Engine.Fault.RoundTrip.{parse_fault_rule-rule_text}

abbrev strokes : ℕ → Bytes
strokes zero = []
strokes (suc n) = 49 ∷ strokes n

abbrev signed : ℤ → Bytes
signed (pos n) = 43 ∷ strokes n
signed (negsuc n) = 45 ∷ strokes n

abbrev count_signed : Bytes → ℤ
count_signed [] = pos 0
count_signed (c ∷ s) = if c == 43 then pos (length s) else negsuc (length s)

abbrev stroke_text : FaultText
stroke_text = record {
  Float = ℕ;
  parse_float = λ s. some (length s);
  hundredth = λ n. n;
  out_of_range = λ n. false;
  format_percent = strokes;
  parse_duration = λ s. some (count_signed s);
  format_duration = signed;
  atoi = λ s. some (count_signed s);
  itoa = signed;
  errno_number = λ name. if str_eq name "EIO" then 5 else 2;
}

strokes-plain : (n : ℕ) → plain (strokes n) ≡ true
unfolding plain lacks no_space
strokes-plain zero = refl
strokes-plain (suc n) = ground (arith, strokes-plain n)

signed-plain : (d : ℤ) → plain (signed d) ≡ true
unfolding plain lacks no_space
signed-plain (pos n) = ground (arith, strokes-plain n)
signed-plain (negsuc n) = ground (arith, strokes-plain n)

length-strokes : (n : ℕ) → length (strokes n) ≡ n
length-strokes zero = refl
length-strokes (suc n) = ap suc (length-strokes n)

signed_back : (d : ℤ) → some (count_signed (signed d)) ≡ some d
signed_back (pos n) = ap (λ m. some (pos m)) (length-strokes n)
signed_back (negsuc n) = ap (λ m. some (negsuc m)) (length-strokes n)

stroke_laws : FaultTextLaws stroke_text
stroke_laws = record {
  format_percent_plain = strokes-plain;
  format_duration_plain = signed-plain;
  itoa_plain = signed-plain;
  parse_duration_back = signed_back;
  atoi_back = signed_back;
}

abbrev third_write : FaultRule ℕ
third_write = record {
  syscall = codes "openat";
  action = action_deny;
  errno = 5;
  delay = pos 0;
  probability = 7;
  path_glob = codes "/data/*";
  trigger = trigger_nth;
  trigger_n = pos 3;
}

third_write_text : rule_text stroke_text third_write ≡ codes "openat=EIO:1111111%:/data/*:nth=+111"
unfolding rule_text action_text path_text trigger_text errno_name
third_write_text = refl

zeroth_write : parse_fault_rule stroke_text (codes "write=EIO:1%:nth=+") ≡ refused bad_nth
unfolding parse_fault_rule parse_deny_rule split_n trim_space errno_by_name find_errno
    parse_probability parse_trigger triggers_of path_of is_trigger_segment has_prefix
zeroth_write = refl

third_write-Printable : Printable stroke_text third_write
unfolding Printable NameOk WholePercent ActionOk TriggerOk PathOk numbered lacks trim_space
    is_trigger_segment has_prefix
third_write-Printable =
    ((refl, refl, refl), (7, refl, refl, refl), refl, (refl, refl, (refl, refl, refl)))

parse_fault_rule-rule_text_example :
    parse_fault_rule stroke_text (rule_text stroke_text third_write) ≡ parsed third_write
parse_fault_rule-rule_text_example =
    parse_fault_rule-rule_text stroke_text stroke_laws third_write third_write-Printable
