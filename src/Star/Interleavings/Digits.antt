-- ===== src/Star/Interleavings/Digits.antt =====
-- internal/star/interleavings.go: the digits of an index, over factorials that wrap.
use mathlib.Core.Path.{subst}
use native.Mathlib.Nat.{mod-lt, mod-add-div, div-lt_iff_lt-mul, mul_comm}
use faultbox.Base.{
  ℕ, zero, suc, ◌+◌, ◌-◌, ◌*◌, ◌/◌, ◌%◌, ◌^◌, ◌≤◌, ◌<◌, ◌≡◌, refl, ap, ◌∙◌, Bool, true, ◌||◌, ◌&&◌,
  some, ltb, leb, ◌==◌, arith, Bool-cases, inl, inr, if◌then◌else◌, and-both,
}
use faultbox.Star.Expand.{factorial}
use faultbox.Star.Interleavings.{divide}

-- A test of every number below `n`.
unfoldable all_below : (ℕ → Bool) → ℕ → Bool
all_below test zero = true
all_below test (suc n) = test n && all_below test n

all_below-lem : (test : ℕ → Bool) (n k : ℕ) → all_below test n ≡ true → k < n → test k ≡ true
unfolding all_below
all_below-lem test zero k h lt = absurd (omega arith)
all_below-lem test (suc n) k h lt =
    let both = and-both (test n) (all_below test n) h in
    elim (Bool-cases (k == n)) [
      | inl same ↦ subst (λ (m : ℕ). test m ≡ true) (ground (arith, same)) both.0
      | inr other ↦ all_below-lem test n k both.1 (ground (arith, other, lt))
    ]

-- What an index with `n` digits left stays below: their factorial, as long as it does not wrap.
unfoldable pub digit_limit : ℕ → ℕ
digit_limit n = if ltb n 21 then factorial n else 2 ^ 63

-- The factorial of `n` gives no digit above `n`, and what is left of the index stays in its limit.
unfoldable fits : ℕ → Bool
unfolding digit_limit factorial
fits n =
    factorial n == 0
    || ltb (factorial n) (2 ^ 63)
      && (leb (digit_limit (suc n)) (factorial n * suc n) && leb (factorial n) (digit_limit n))
    || leb (2 ^ 63) (factorial n) && leb (digit_limit (suc n)) (digit_limit n)

fits-below : (n : ℕ) → n < 66 → fits n ≡ true
fits-below n h = all_below-lem fits 66 n (unfold all_below fits in refl) h

factorial-vanishes : (n : ℕ) → 66 ≤ n → factorial n ≡ 0
unfolding factorial
factorial-vanishes zero h = absurd (omega arith)
factorial-vanishes (suc n) h = elim (Bool-cases (n == 65)) [
  | inl last ↦
      let same : 65 ≡ n = ground (arith, last) in
      subst (λ (m : ℕ). (factorial m * suc m) % 2 ^ 64 ≡ 0) same refl
  | inr later ↦
      let zeros : factorial n ≡ 0 = factorial-vanishes n (ground (arith, later, h)) in
      ap (λ (f : ℕ). (f * suc n) % 2 ^ 64) zeros ∙ omega arith
]

fits_everywhere : (n : ℕ) → fits n ≡ true
fits_everywhere n = elim (Bool-cases (ltb n 66)) [
  | inl small ↦ fits-below n (ground (arith, small))
  | inr large ↦
      let gone : factorial n ≡ 0 = factorial-vanishes n (ground (arith, large)) in
      unfold fits in rw gone refl
]

-- One division, for a factor that fits the limits of the index before and after it.
divide-bounded :
    (f n k d rem before after : ℕ)
    → k < before
    → (f == 0
        || ltb f (2 ^ 63) && (leb before (f * suc n) && leb f after)
        || leb (2 ^ 63) f && leb before after)
      ≡ true
    → divide k f ≡ some (d, rem)
    → (k ≡ rem + f * d) × (d ≤ n) × (rem < after)
unfolding divide
divide-bounded f n k d rem before after h fit e = elim (Bool-cases (f == 0)) [
  | inl zeros ↦ absurd (ground (arith, zeros, e))
  | inr some_f ↦ elim (Bool-cases (ltb f (2 ^ 63))) [
    | inl exact ↦
        let digit : k / f ≡ d = ground (arith, some_f, exact, e) in
        let rest : k % f ≡ rem = ground (arith, some_f, exact, e) in
        let positive : 0 < f = ground (arith, some_f) in
        let room : (before ≤ f * suc n) × (f ≤ after) = ground (arith, some_f, exact, fit) in
        let few : k / f < suc n =
          (div-lt_iff_lt-mul positive).1 (omega (arith, mul_comm f (suc n), room.0, h)) in
        (
          omega (arith, mod-add-div k f, ap (λ (t : ℕ). f * t) digit, rest),
          omega (arith, few, digit),
          omega (arith, mod-lt k positive, rest, room.1),
        )
    | inr negative ↦ elim (Bool-cases (ltb k (2 ^ 64 - f))) [
      | inl within ↦
          let digit : 0 ≡ d = ground (arith, some_f, negative, within, e) in
          let rest : k ≡ rem = ground (arith, some_f, negative, within, e) in
          let room : before ≤ after = ground (arith, some_f, negative, fit) in
          (
            omega (arith, ap (λ (t : ℕ). f * t) digit, rest),
            omega (arith, digit),
            omega (arith, rest, room, h),
          )
      | inr beyond ↦ absurd (ground (arith, some_f, negative, beyond, e))
    ]
  ]
]

-- One division of the loop: the index is its digit and its rest again, the digit is one of the
-- entries in the pool, and the rest stays in its limit.
pub divide-digit :
    (n k d rem : ℕ)
    → k < digit_limit (suc n)
    → divide k (factorial n) ≡ some (d, rem)
    → (k ≡ rem + factorial n * d) × (d ≤ n) × (rem < digit_limit n)
divide-digit n k d rem h e =
    divide-bounded (factorial n) n k d rem (digit_limit (suc n)) (digit_limit n) h
      (unfold fits in fits_everywhere n) e

small_test : ℕ → Bool
small_test n = ltb 0 (factorial n) && ltb (factorial n) (2 ^ 63)

-- Up to 20 the factorial does not wrap, and there is a digit.
pub divide-some :
    (n k : ℕ) → n ≤ 20 → divide k (factorial n) ≡ some (k / factorial n, k % factorial n)
divide-some n k h =
    let both = and-both (ltb 0 (factorial n)) (ltb (factorial n) (2 ^ 63)) (
      unfold small_test in
      all_below-lem small_test 21 n (unfold all_below small_test factorial in refl)
        (omega (arith, h))) in
    unfold divide in ground (arith, both.0, both.1)
