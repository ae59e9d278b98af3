-- ===== src/Netfault/Trigger.antt =====
-- internal/netfault/rule.go: how often a rule's trigger fires over a run of matching packets.
use native.Mathlib.Nat.{div-eq_of_lt-le, div-add-mod', mod-lt}
use native.Mathlib.Decide.{dec_lt}
use faultbox.Base.{
  ℕ, zero, suc, ◌+◌, ◌-◌, ◌/◌, ◌%◌, ◌≡◌, refl, ap, Bool, true, false, ◌==◌, if◌then◌else◌, leb,
  arith, ◌<◌, ◌*◌, ◌&&◌,
}
use faultbox.Base.Int.{ℤ, pos, negsuc}
use faultbox.Netfault.Rule.{Rule, Trigger, always, nth, after, every, should_trigger, trigger_fires}

abbrev pub one_if : Bool → ℕ
one_if true = 1
one_if false = 0

-- The rule after `n` matching packets, and on how many of them it fired.
unfoldable pub trigger_run : {F : Type 0} → ℕ → Rule F → Rule F × ℕ
trigger_run zero r = (r, 0)
trigger_run (suc n) r =
    let (r', fires) = should_trigger r in let (r'', k) = trigger_run n r' in (r'', one_if fires + k)

-- How often a trigger fires on the first `n` matching packets.
unfoldable pub fires_among : Trigger → ℤ → ℕ → ℕ
fires_among always k n = n
fires_among nth (negsuc k) n = 0
fires_among nth (pos k) n = if leb 1 k && leb k n then 1 else 0
fires_among after (negsuc k) n = n
fires_among after (pos k) n = n - k
fires_among every (negsuc k) n = n
fires_among every (pos zero) n = n
fires_among every (pos (suc k)) n = n / suc k

-- One more matching packet either completes a group of `suc k` or does not.
div-suc_full : (n k : ℕ) → n % suc k ≡ k → ((n + 1) / suc k ≡ n / suc k + 1) × ((n + 1) % suc k ≡ 0)
div-suc_full n k full = (quotient, rest)
  where
    quotient : (n + 1) / suc k ≡ n / suc k + 1
    quotient =
        div-eq_of_lt-le (suc k) (omega (arith, div-add-mod' n (suc k)))
          (omega (arith, div-add-mod' n (suc k)))

    rest : (n + 1) % suc k ≡ 0
    rest = omega (
      arith,
      div-add-mod' n (suc k),
      div-add-mod' (n + 1) (suc k),
      ap (λ (t : ℕ). t * suc k) quotient,
    )

div-suc_part :
    (n k : ℕ) → n % suc k < k → ((n + 1) / suc k ≡ n / suc k) × ((n + 1) % suc k ≡ n % suc k + 1)
div-suc_part n k part = (quotient, rest)
  where
    quotient : (n + 1) / suc k ≡ n / suc k
    quotient =
        div-eq_of_lt-le (suc k) (omega (arith, div-add-mod' n (suc k)))
          (omega (arith, div-add-mod' n (suc k)))

    rest : (n + 1) % suc k ≡ n % suc k + 1
    rest = omega (
      arith,
      div-add-mod' n (suc k),
      div-add-mod' (n + 1) (suc k),
      ap (λ (t : ℕ). t * suc k) quotient,
    )

div-suc : (n k : ℕ) → (n + 1) / suc k ≡ n / suc k + one_if ((n + 1) % suc k == 0)
div-suc n k = elim (dec_lt (n % suc k) k) [
  | yes part ↦ let (q, r) = div-suc_part n k part in rw (q, r) (ground arith)
  | no full ↦
      let (q, r) = div-suc_full n k (omega (arith, mod-lt n {m = suc k})) in
      rw (q, r) (ground arith)
]

fires_among-suc :
    (t : Trigger) (k : ℤ) (n : ℕ)
    → fires_among t k (n + 1) ≡ fires_among t k n + one_if (trigger_fires t k (n + 1))
unfolding fires_among
fires_among-suc always k n = refl
fires_among-suc nth (negsuc k) n = refl
fires_among-suc nth (pos k) n = ground arith
fires_among-suc after (negsuc k) n = refl
fires_among-suc after (pos k) n = ground arith
fires_among-suc every (negsuc k) n = refl
fires_among-suc every (pos zero) n = refl
fires_among-suc every (pos (suc k)) n = div-suc n k

-- Over `n` matching packets a rule that has seen `r.counter` of them fires exactly as often as its
-- trigger says of those packets, and counts every one of them.
pub trigger_run-count :
    {F : Type 0} (n : ℕ) (r : Rule F)
    → (fires_among r.trigger r.trigger_n r.counter + (trigger_run n r).1
        ≡ fires_among r.trigger r.trigger_n (r.counter + n))
      × ((trigger_run n r).0.counter ≡ r.counter + n)
unfolding trigger_run should_trigger
trigger_run-count zero r = ground arith
trigger_run-count (suc n) r =
    let (r', fires) = should_trigger r in
    let shift : r.counter + suc n ≡ r.counter + 1 + n = omega arith in
    let (count, seen) = trigger_run-count n r' in
    rw shift
      (omega (arith, count, fires_among-suc r.trigger r.trigger_n r.counter), omega (arith, seen))
