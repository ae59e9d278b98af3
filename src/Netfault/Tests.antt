-- ===== src/Netfault/Tests.antt =====
-- Runs of the packet-fault datapath, and the theorems at concrete rules and packets.
-- Probabilities are whole percents.
use mathlib.Core.List.{Perm}
use faultbox.Base.{
  ℕ, ◌+◌, ◌≡◌, ◌≤◌, ◌⊎◌, refl, true, false, List, [], ◌∷◌, ◌++◌, none, some, length, codes, All,
  has_prefix,
}
use faultbox.Base.Int.{pos}
use faultbox.Base.Float.{percent}
use faultbox.Netfault.PacketView.{PacketView, dir_c2s}
use faultbox.Netfault.Match.{Match, matches, matches_declarative}
use faultbox.Netfault.Rule.{Rule, drop_action, every, should_trigger, roll_probability}
use faultbox.Netfault.Trigger.{trigger_run, fires_among, trigger_run-count}
use faultbox.Netfault.Validate.{RuleError, validate, new_rule_set, frozen, bad_rule}
use faultbox.Netfault.Validate.Coherent.{IsCoherent}
use faultbox.Netfault.Validate.Rules.{new_rule_set-Coherent}
use faultbox.Netfault.Decide.{decide, gate}
use faultbox.Netfault.Decide.First.{AllPassed, Acted, draws_after, decide-first}
use faultbox.Netfault.Defer.{
  schedule_op, DeferOp, Deferred, push, less, new_defer_queue, schedule, run_round, step, run, stop,
}
use faultbox.Netfault.Defer.Due.{rounds, IsDue, Waits, rounds-IsDue}
use faultbox.Netfault.Defer.Order.{run_round-first}
use faultbox.Netfault.Defer.Released.{stop-flushes, accepted_all}

abbrev to_postgres : PacketView
to_postgres = record {
  proto = "tcp";
  dir = dir_c2s;
  src_ip = "10.99.0.1";
  dst_ip = "10.99.0.2";
  src_port = 40000;
  dst_port = 5432;
  payload_len = pos 3;
  payload = codes "abc";
  flags = 24;
  seq = 1;
  ack = 2;
  window = 512;
  index = pos 4;
  flow = "f";
}

abbrev match_port : ℕ → Match
match_port n = record {
  dir = some dir_c2s;
  proto = "tcp";
  flags_set = 8;
  flags_clear = 2;
  port = n;
  dst_ip = "";
  len = pos 0;
  has_len = false;
  len_gt = pos 2;
  has_len_gt = true;
  len_lt = pos 0;
  has_len_lt = false;
  payload_prefix = codes "ab";
  payload_contains = [];
  where_fn = some (λ p. true);
}

abbrev drop_every_second : ℕ → Rule ℕ
drop_every_second port = record {
  action = drop_action;
  match = match_port port;
  label = "";
  delay = pos 0;
  reorder_by = pos 0;
  duplicate_count = pos 0;
  corrupt_offset = pos 0;
  corrupt_length = pos 0;
  corrupt_mode = "";
  checksum = "";
  window_size = 0;
  trigger = every;
  trigger_n = pos 2;
  probability = 100;
  max_fires = pos 0;
  mode = "";
  counter = 0;
  prob_counter = 0;
  fired = 0;
}

abbrev seen_once : Rule ℕ
seen_once = record (drop_every_second 5432) { counter = 1 }

abbrev half : Rule ℕ
half = record (drop_every_second 5432) { probability = 50; max_fires = pos 2; mode = "exhaustive" }

abbrev two_rules : List (Rule ℕ)
two_rules = drop_every_second 80 ∷ seen_once ∷ []

-- The first rule is for another port, the second one acts at its second match.
acts_on_the_second :
    (decide none none to_postgres 0 0 two_rules).acted
    ≡ some (record seen_once { counter = 2; fired = 1 })
unfolding decide gate matches matches_declarative should_trigger roll_probability has_prefix
acts_on_the_second = refl

decide-first_example :
    (((decide none none to_postgres 0 0 two_rules).acted ≡ none)
      × AllPassed none none to_postgres 0 two_rules
          (decide none none to_postgres 0 0 two_rules).rules)
    ⊎ ((pre pre' post : List (Rule ℕ)) × (r q : Rule ℕ) × ((decide none none to_postgres 0 0
            two_rules).acted
          ≡ some q)
        × (two_rules ≡ pre ++ r ∷ post)
        × ((decide none none to_postgres 0 0 two_rules).rules ≡ pre' ++ q ∷ post)
        × AllPassed none none to_postgres 0 pre pre'
        × Acted none none to_postgres (draws_after none none to_postgres 0 pre) r q)
decide-first_example = decide-first none none to_postgres 0 0 two_rules

trigger_run-count_example :
    (fires_among every (pos 2) 1 + (trigger_run 5 seen_once).1 ≡ fires_among every (pos 2) (1 + 5))
    × ((trigger_run 5 seen_once).0.counter ≡ 1 + 5)
trigger_run-count_example = trigger_run-count 5 seen_once

abbrev no_count : Rule ℕ
no_count = record (drop_every_second 80) { trigger_n = pos 0 }

new_rule_set-Coherent_example :
    ((new_rule_set (seen_once ∷ no_count ∷ []) ≡ frozen (seen_once ∷ no_count ∷ []))
      × All (IsCoherent percent) (seen_once ∷ no_count ∷ []))
    ⊎ ((pre post : List (Rule ℕ)) × (r : Rule ℕ) × (e : RuleError) × (seen_once ∷ no_count ∷ []
          ≡ pre ++ r ∷ post)
        × (new_rule_set (seen_once ∷ no_count ∷ []) ≡ bad_rule (length pre) e)
        × (validate r ≡ some e)
        × All (IsCoherent percent) pre
        × (IsCoherent percent r → ⊥))
new_rule_set-Coherent_example = new_rule_set-Coherent (seen_once ∷ no_count ∷ [])

abbrev two_delayed : List (DeferOp ℕ)
two_delayed = schedule_op 0 50 1 ∷ schedule_op 10 20 2 ∷ schedule_op 20 10 3 ∷ []

abbrev first_due : Deferred ℕ
first_due = record { deadline = 30; seq = 2; fn = 2 }

run_round-first_example :
    (30 ≤ 40)
    × All (λ y. less first_due y ≡ true) (run_round 40 (run two_delayed new_defer_queue).0).0.h
run_round-first_example =
    run_round-first two_delayed 40 first_due
      (unfold run step schedule push less run_round new_defer_queue in refl)

stop-flushes_example :
    Perm
      ((run two_delayed new_defer_queue).1 ++ (stop (run two_delayed new_defer_queue).0).1)
      (accepted_all two_delayed new_defer_queue)
stop-flushes_example = stop-flushes two_delayed

rounds-IsDue_example :
    ((rounds
          (length (run two_delayed new_defer_queue).0.h)
          40
          (run two_delayed new_defer_queue).0).1
        ++ (rounds
            (length (run two_delayed new_defer_queue).0.h)
            40
            (run two_delayed new_defer_queue).0).0.h
      ≡ (run two_delayed new_defer_queue).0.h)
    × All
        (IsDue 40)
        (rounds
          (length (run two_delayed new_defer_queue).0.h)
          40
          (run two_delayed new_defer_queue).0).1
    × All
        (Waits 40)
        (rounds
          (length (run two_delayed new_defer_queue).0.h)
          40
          (run two_delayed new_defer_queue).0).0.h
rounds-IsDue_example = rounds-IsDue two_delayed 40
