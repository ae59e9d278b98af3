-- ===== src/Netfault/Shape/Tests.antt =====
-- Tests of internal/netfault/shape.go and the link of endpoint.go, at one byte per nanosecond.
use faultbox.Base.{
  ℕ, ◌+◌, ◌-◌, ◌*◌, ◌/◌, ◌≤◌, ◌<◌, ◌≡◌, refl, true, false, Option, none, some, List, [], ◌∷◌, ◌++◌,
  length, All, arith, Bytes, codes, ◌↔◌,
}
use faultbox.Base.Int.{pos}
use faultbox.Base.Float.{percent}
use faultbox.Base.Split.{trim_space}
use faultbox.Netfault.PacketView.{dir_s2c, dir_both}
use faultbox.Netfault.Shape.{Shaper, new_shaper, backlog_or_default, admit}
use faultbox.Netfault.Shape.Slots.{Arrival, Slot, with_size, run}
use faultbox.Netfault.Shape.Accounts.{run-IsAccounted}
use faultbox.Netfault.Shape.Paced.{busy_after, total_time, run-spaced, admit-dropped}
use faultbox.Netfault.Shape.Link.{
  Link, release_now, deferred_by, queue_full, set_bandwidth, set_mtu, mtu, paced, shaper_stats_for,
  clear_shapers,
}
use faultbox.Netfault.Shape.Link.Apart.{Travel, outcomes}
use faultbox.Netfault.Shape.Rate.{
  rate, refused, missing_number, rate_is_empty, no_unit, not_positive, cut_suffix, parse_rate,
  parse_positive_float, try_units, decimal,
}
use faultbox.Netfault.Shape.Rate.Units.{parse_rate-bits, parse_rate-bytes}

abbrev one_to_one : ℕ → ℕ → ℕ
one_to_one r size = size

abbrev shaper : Shaper ℕ
shaper = new_shaper 1 (pos 100)

abbrev at_time : ℕ → ℕ → Arrival
at_time now size = record { size = pos size; now = now }

abbrev burst : List Arrival
burst = at_time 10 80 ∷ at_time 20 60 ∷ at_time 25 5 ∷ []

abbrev slot : ℕ → ℕ → ℕ → Slot
slot wait start time = record { wait = wait; start = start; time = time }

burst-slots : (run one_to_one burst shaper).1 ≡ slot 0 10 80 ∷ slot 70 90 60 ∷ []
unfolding run admit new_shaper backlog_or_default
burst-slots = refl

run-IsAccounted_example :
    let last : Shaper ℕ = (run one_to_one burst shaper).0 in
    let slots : List Slot = (run one_to_one burst shaper).1 in
    (last.admitted + last.dropped ≡ with_size burst)
    × (last.admitted ≡ length slots)
    × All (λ (x : Slot). x.wait ≤ last.backlog_peak_nanos) slots
    × (last.backlog_peak_nanos ≤ shaper.max_backlog)
    × (0 < shaper.max_backlog)
run-IsAccounted_example = run-IsAccounted one_to_one 1 (pos 100) burst

run-spaced_example : 10 + total_time (slot 0 10 80 ∷ []) ≤ 90
run-spaced_example =
    run-spaced one_to_one burst shaper [] [] (slot 0 10 80) (slot 70 90 60) [] burst-slots

admit-dropped_example :
    let (last, slots) = run one_to_one burst shaper in
    ((admit one_to_one (pos 1) 30 last).1 ≡ none)
    ↔ (busy_after (30 + shaper.max_backlog) slots ≡ true)
admit-dropped_example = admit-dropped one_to_one 1 (pos 100) burst 0 30 (omega arith)

abbrev unshaped : Link ℕ
unshaped = record { shape_c2s = none; shape_s2c = none; mtu_override = 0 }

abbrev slow : Link ℕ
slow = set_bandwidth dir_both 1 (pos 100) unshaped

abbrev travel : ℕ → Travel
travel now = record { to_server = true; size = pos 90; now = now }

abbrev back : ℕ → Travel
back now = record { to_server = false; size = pos 90; now = now }

abbrev crossing : List Travel
crossing = travel 0 ∷ back 1 ∷ travel 2 ∷ travel 3 ∷ back 4 ∷ []

slow-outcomes :
    outcomes one_to_one true crossing slow ≡ release_now ∷ deferred_by 88 ∷ queue_full ∷ []
unfolding outcomes paced admit new_shaper backlog_or_default set_bandwidth
slow-outcomes = refl

mtu-set : (mtu 1500 (set_mtu 576 slow) ≡ 576) × (mtu 1500 (clear_shapers (set_mtu 576 slow)) ≡ 1500)
unfolding mtu clear_shapers
mtu-set = (refl, refl)

shaper_stats_for-unshaped : shaper_stats_for dir_s2c (clear_shapers slow) ≡ none
unfolding shaper_stats_for clear_shapers
shaper_stats_for-unshaped = refl

-- Two digits.
abbrev parse_two : Bytes → Option ℕ
parse_two (a ∷ b ∷ []) = some ((a * 10 + b) - 528)
parse_two _ = none

abbrev eighth_part : ℕ → ℕ
eighth_part n = n / 8

abbrev times : ℕ → ℕ → ℕ
times n m = n * m

parse_rate-refused :
    (parse_rate parse_two times eighth_part (codes "  ") ≡ refused rate_is_empty)
    × (parse_rate parse_two times eighth_part (codes "mbit") ≡ refused missing_number)
    × (parse_rate parse_two times eighth_part (codes "00kB/s") ≡ refused not_positive)
    × (parse_rate parse_two times eighth_part (codes "16") ≡ refused no_unit)
unfolding parse_rate parse_positive_float try_units cut_suffix trim_space
parse_rate-refused = (refl, refl, refl, refl)

parse_rate-bits_example :
    parse_rate parse_two times eighth_part (codes "16" ++ codes "Mbps") ≡ rate 2_000_000
unfolding decimal
parse_rate-bits_example =
    parse_rate-bits parse_two times eighth_part (codes "16") (codes "Mbps") 16 2
      (record { suffix = codes "mbps"; mult = 1_000_000 }) (λ e. absurd cc) refl refl refl refl refl

kilobytes : parse_rate parse_two times eighth_part (codes "16" ++ codes "kB/s") ≡ rate 16_000
unfolding decimal
kilobytes =
    parse_rate-bytes parse_two times eighth_part (codes "16") (codes "kB/s") 16 2
      (record { suffix = codes "kb/s"; mult = 1000 }) (λ e. absurd cc) refl refl refl refl refl
