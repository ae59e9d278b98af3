-- ===== src/Netfault/Rule.antt =====
-- internal/netfault/rule.go: one packet fault, its trigger and its probability gate. Counters are
-- fields that a call returns anew; the seeded generator is the sequence of its draws, with the
-- number of draws taken. The int64 counters are not bounded here.
use faultbox.Base.{
  ℕ, zero, suc, ◌+◌, ◌%◌, ◌-◌, ◌≡◌, arith, ◌==◌, Bool, true, false, ◌||◌, Option, none, some,
  String, str_eq, if◌then◌else◌,
}
use faultbox.Base.Int.{ℤ, pos, negsuc, eqb_ℤ, ltb_ℤ}
use faultbox.Base.Float.{Float}
use faultbox.Netfault.Match.{Match}

pub data Action : Type 0 where
  pass_action drop_action delay_action duplicate_action : Action
  reorder_action corrupt_action reset_action window_action : Action

pub data Trigger : Type 0 where
  always nth after every : Trigger

pub record Rule (F : Type 0) : Type 0 where
  pub action : Action
  pub match : Match
  pub label : String
  pub delay : ℤ
  pub reorder_by : ℤ
  pub duplicate_count : ℤ
  pub corrupt_offset : ℤ
  pub corrupt_length : ℤ
  pub corrupt_mode : String
  pub checksum : String
  pub window_size : ℕ
  pub trigger : Trigger
  pub trigger_n : ℤ
  pub probability : F
  pub max_fires : ℤ
  pub mode : String
  pub counter : ℕ
  pub prob_counter : ℕ
  pub fired : ℕ

abbrev pub every_fires : ℕ → ℤ → Bool
every_fires n (negsuc k) = true
every_fires n (pos zero) = true
every_fires n (pos (suc k)) = n % suc k == 0

-- The `switch` of `shouldTrigger` at the new value of the counter.
abbrev pub trigger_fires : Trigger → ℤ → ℕ → Bool
trigger_fires nth k n = eqb_ℤ (pos n) k
trigger_fires after k n = ltb_ℤ k (pos n)
trigger_fires every k n = every_fires n k
trigger_fires always k n = true

-- `(fire, pinned)` for a rule and an occurrence
abbrev pub ProbabilityDecider : Type 0 → Type 0
ProbabilityDecider F = Rule F → ℕ → Bool × Bool

-- The sequence that a seed gives, if there is a generator at all.
abbrev pub Draws : Type 0 → Type 0
Draws F = Option (ℕ → F)

abbrev pub pinned_or : Bool × Bool → Bool → Bool
pinned_or (fire, true) drawn_fire = fire
pinned_or (fire, false) drawn_fire = drawn_fire

module _ {F : Type 0} where
  unfoldable pub match_count : Rule F → ℕ
  match_count r = r.counter

  unfoldable pub fire_count : Rule F → ℕ
  fire_count r = r.fired

  unfoldable pub should_trigger : Rule F → Rule F × Bool
  should_trigger r =
      let n = r.counter + 1 in (record r { counter = n }, trigger_fires r.trigger r.trigger_n n)

  unfoldable pub next_probability_occurrence : Rule F → Rule F × ℕ
  next_probability_occurrence r =
      let n = r.prob_counter + 1 in (record r { prob_counter = n }, n - 1)

  abbrev pub draw_fires : Float F → Draws F → ℕ → F → Bool × ℕ
  draw_fires fl none drawn p = (false, drawn)
  draw_fires fl (some next) drawn p = (fl.lt (next drawn) p, drawn + 1)

  abbrev pub consult : Option (ProbabilityDecider F) → Rule F → Bool → Rule F × Bool
  consult none r fire = (r, fire)
  consult (some decide) r fire =
      if str_eq r.mode "stochastic"
      then (r, fire)
      else let (r', occ) = next_probability_occurrence r in (r', pinned_or (decide r' occ) fire)

  -- The rule after the consultation, the draws taken, and the outcome.
  unfoldable pub roll_probability :
      ⦃fl : Float F⦄ → Draws F → Option (ProbabilityDecider F) → ℕ → Rule F → Rule F × ℕ × Bool
  unfolding next_probability_occurrence
  roll_probability ⦃fl⦄ rnd decider drawn r =
      if fl.le r.probability fl.zero_f || fl.le fl.one_f r.probability
      then (r, drawn, true)
      else let (fire, drawn') = draw_fires fl rnd drawn r.probability in
        let (r', fire') = consult decider r fire in (r', drawn', fire')

module _ {F : Type 0} ⦃fl : Float F⦄ where
  -- Which draws of the seed's sequence a consultation takes does not depend on the decider, so a
  -- pinned run and an unpinned run of one seed stay aligned.
  pub roll_probability_aligned :
      (rnd : Draws F) (d e : Option (ProbabilityDecider F)) (drawn : ℕ) (r : Rule F)
      → (roll_probability rnd d drawn r).1 ≡ (roll_probability rnd e drawn r).1
  unfolding roll_probability
  roll_probability_aligned rnd d e drawn r = ground arith

  -- A pinned occurrence of a rule with a real probability decides the outcome whatever is drawn,
  -- and the next consultation gets the next occurrence index.
  pub roll_probability_pinned :
      (rnd : Draws F) (decide : ProbabilityDecider F) (drawn : ℕ) (r : Rule F) (fire : Bool)
      → fl.le r.probability fl.zero_f ≡ false
      → fl.le fl.one_f r.probability ≡ false
      → str_eq r.mode "stochastic" ≡ false
      → decide (record r { prob_counter = r.prob_counter + 1 }) r.prob_counter ≡ (fire, true)
      → ((roll_probability rnd (some decide) drawn r).2 ≡ fire)
        × ((roll_probability rnd (some decide) drawn r).0.prob_counter ≡ r.prob_counter + 1)
  unfolding roll_probability
  roll_probability_pinned rnd decide drawn r fire h0 h1 hm hd =
      let before : r.prob_counter + 1 - 1 ≡ r.prob_counter = omega arith in ground (arith, before)
