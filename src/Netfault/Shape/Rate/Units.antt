-- ===== src/Netfault/Shape/Rate/Units.antt =====
-- internal/netfault/shape.go (ParseRate): which unit a rate is read in.
use mathlib.Core.Path.{subst}
use mathlib.Core.List.{append-nil}
use faultbox.Base.{
  ℕ, zero, suc, ◌≡◌, refl, ap, ◌∙◌, Bool, true, false, not, Option, none, some, List, [], ◌∷◌, ◌++◌,
  arith, Bytes, All, get_elem?, and-both, ◌≢◌,
}
use faultbox.Base.Float.{Float}
use faultbox.Base.Split.{
  trim_space, lower, lower_byte, bytes_eq, no_space, is_space, no_space-append, trim_space-no_space,
}
use faultbox.Netfault.Shape.Rate.{
  RateUnit, RateResult, rate, refused, no_unit, units, byte_units, cut_suffix, after_byte,
  parse_positive_float, parse_number, scaled, try_suffix, try_units, rate_of, by_units, in_bits,
  parse_rate, is_decimal, decimal,
}

unfoldable starts_apart : Bytes → Bool
starts_apart [] = false
starts_apart (d ∷ s) = not (is_decimal d)

abbrev joined : Bytes → Option Bytes → Option Bytes
joined num none = none
joined num (some rest) = some (num ++ rest)

after_byte-joined :
    (c : ℕ) (num : Bytes) (o : Option Bytes) → after_byte c (joined num o) ≡ joined (c ∷ num) o
after_byte-joined c num none = refl
after_byte-joined c num (some rest) = refl

joined-none : (o : Option Bytes) → o ≡ joined [] o
joined-none none = refl
joined-none (some rest) = refl

bytes_eq-apart :
    (c : ℕ) (s suffix : Bytes)
    → is_decimal c ≡ true
    → starts_apart suffix ≡ true
    → bytes_eq (c ∷ s) suffix ≡ false
unfolding starts_apart
bytes_eq-apart c s [] digit apart = absurd cc
bytes_eq-apart c s (d ∷ suffix) digit apart = ground (arith, digit, apart)

cut_suffix-decimal :
    (suffix num text : Bytes)
    → starts_apart suffix ≡ true
    → decimal num ≡ true
    → cut_suffix suffix (num ++ text) ≡ joined num (cut_suffix suffix text)
unfolding decimal cut_suffix
cut_suffix-decimal suffix [] text apart digits = joined-none (cut_suffix suffix text)
cut_suffix-decimal suffix (c ∷ num) text apart digits =
    let both : (is_decimal c ≡ true) × (decimal num ≡ true) =
      and-both (is_decimal c) (decimal num) digits in
    rw (bytes_eq-apart c (num ++ text) suffix both.0 apart) (
      ap (after_byte c) (cut_suffix-decimal suffix num text apart both.1)
      ∙ after_byte-joined c num (cut_suffix suffix text))

lower-append : (s t : Bytes) → lower (s ++ t) ≡ lower s ++ lower t
lower-append [] t = refl
lower-append (c ∷ s) t = ap (λ r. lower_byte c ∷ r) (lower-append s t)

lower-decimal : (s : Bytes) → decimal s ≡ true → lower s ≡ s
unfolding decimal
lower-decimal [] h = refl
lower-decimal (c ∷ s) h =
    let both : (is_decimal c ≡ true) × (decimal s ≡ true) = and-both (is_decimal c) (decimal s) h in
    let kept : lower_byte c ≡ c = ground (arith, both.0) in
    let rest : lower s ≡ s = lower-decimal s both.1 in cc

no_space-lower : (s : Bytes) → no_space (lower s) ≡ true → no_space s ≡ true
unfolding no_space
no_space-lower [] h = refl
no_space-lower (c ∷ s) h =
    let both : (not (is_space (lower_byte c)) ≡ true) × (no_space (lower s) ≡ true) =
      and-both (not (is_space (lower_byte c))) (no_space (lower s)) h in
    let black : is_space c ≡ false = ground (arith, both.0) in rw (black) (no_space-lower s both.1)

no_space-decimal : (s : Bytes) → decimal s ≡ true → no_space s ≡ true
unfolding no_space decimal
no_space-decimal [] h = refl
no_space-decimal (c ∷ s) h =
    let both : (is_decimal c ≡ true) × (decimal s ≡ true) = and-both (is_decimal c) (decimal s) h in
    let black : is_space c ≡ false = ground (arith, both.0) in
    rw (black) (no_space-decimal s both.1)

All-get_elem? :
    {A : Type 0} (P : A → Type 0) (xs : List A) (i : ℕ) (x : A)
    → All P xs
    → get_elem? xs i ≡ some x
    → P x
All-get_elem? P [] i x all e = absurd cc
All-get_elem? P (y ∷ xs) zero x all e = let same : y ≡ x = cc in subst P same all.0
All-get_elem? P (y ∷ xs) (suc i) x all e = All-get_elem? P xs i x all.1 e

module _ {F : Type 0} (parse_float : Bytes → Option F) (times : F → ℕ → F) (eighth : F → F)
    ⦃f : Float F⦄ where
  abbrev try_joined : (F → ℕ → F) → List RateUnit → Bytes → Bytes → RateResult F → RateResult F
  try_joined g [] num text otherwise = otherwise
  try_joined g (u ∷ us) num text otherwise =
      try_suffix parse_float times eighth (λ v. g v u.mult) (joined num (cut_suffix u.suffix text))
        (try_joined g us num text otherwise)

  try_units-decimal :
      (g : F → ℕ → F) (us : List RateUnit) (num text : Bytes) (otherwise : RateResult F)
      → All (λ (u : RateUnit). starts_apart u.suffix ≡ true) us
      → decimal num ≡ true
      → try_units parse_float times eighth g us (num ++ text) otherwise
        ≡ try_joined g us num text otherwise
  unfolding try_units
  try_units-decimal g [] num text otherwise apart digits = refl
  try_units-decimal g (u ∷ us) num text otherwise apart digits =
      rw (cut_suffix-decimal u.suffix num text apart.0 digits) (
        ap
          (try_suffix parse_float times eighth (λ v. g v u.mult)
            (joined num (cut_suffix u.suffix text)))
          (try_units-decimal g us num text otherwise apart.1 digits))

  -- What a rate is read as, for a number and a unit.
  rate_text :
      (num text suffix : Bytes)
      → num ≢ []
      → decimal num ≡ true
      → lower text ≡ suffix
      → no_space suffix ≡ true
      → parse_rate parse_float times eighth (num ++ text)
        ≡ try_joined times byte_units num suffix
            (try_joined (in_bits parse_float times eighth) units num suffix (refused no_unit))
  unfolding parse_rate starts_apart
  rate_text [] text suffix some_digits digits spelled black = absurd (some_digits refl)
  rate_text (c ∷ num) text suffix some_digits digits spelled black =
      let no_blank : no_space (c ∷ num ++ text) ≡ true =
        no_space-append (c ∷ num) text (no_space-decimal (c ∷ num) digits)
          (no_space-lower text (ap no_space spelled ∙ black)) in
      let lowered : lower (c ∷ num ++ text) ≡ (c ∷ num) ++ suffix =
        lower-append (c ∷ num) text
        ∙ (ap (λ r. r ++ lower text) (lower-decimal (c ∷ num) digits)
            ∙ ap (λ r. (c ∷ num) ++ r) spelled) in
      let bits = try_units parse_float times eighth (in_bits parse_float times eighth) units in
      let first : parse_rate parse_float times eighth (c ∷ num ++ text)
          ≡ by_units parse_float times eighth (lower (c ∷ num ++ text)) =
        ap (rate_of parse_float times eighth) (trim_space-no_space (c ∷ num ++ text) no_blank) in
      first
      ∙ (ap (by_units parse_float times eighth) lowered
          ∙ (try_units-decimal times byte_units (c ∷ num) suffix
                (bits ((c ∷ num) ++ suffix) (refused no_unit)) (refl, (refl, (refl, (refl, tt))))
                digits
              ∙ ap (try_joined times byte_units (c ∷ num) suffix) (
                  try_units-decimal (in_bits parse_float times eighth) units (c ∷ num) suffix
                    (refused no_unit)
                    (refl, (refl, (refl, (refl, (refl, (refl, (refl, (refl, tt)))))))) digits)))

  number-rate :
      (num : Bytes) (v : F)
      → num ≢ []
      → decimal num ≡ true
      → parse_float num ≡ some v
      → f.le v f.zero_f ≡ false
      → parse_positive_float parse_float times eighth (num ++ []) ≡ rate v
  unfolding parse_positive_float
  number-rate [] v some_digits digits read above = absurd (some_digits refl)
  number-rate (c ∷ num) v some_digits digits read above =
      ap (λ s. parse_number parse_float times eighth (trim_space s)) (append-nil (c ∷ num))
      ∙ (ap (parse_number parse_float times eighth)
            (trim_space-no_space (c ∷ num) (no_space-decimal (c ∷ num) digits))
          ∙ (rw (read, above) refl))

  -- A unit is found, in both tables, behind a number.
  abbrev Reads : Bytes → F → (F → ℕ → F) → RateUnit → Type 0
  Reads num v g u =
      (no_space u.suffix ≡ true)
      × (try_joined times byte_units num u.suffix
            (try_joined (in_bits parse_float times eighth) units num u.suffix (refused no_unit))
          ≡ rate (g v u.mult))

  parse_rate-Reads :
      (g : F → ℕ → F) (table : List RateUnit) (num text : Bytes) (v : F) (i : ℕ) (u : RateUnit)
      → num ≢ []
      → decimal num ≡ true
      → All (Reads num v g) table
      → get_elem? table i ≡ some u
      → lower text ≡ u.suffix
      → parse_rate parse_float times eighth (num ++ text) ≡ rate (g v u.mult)
  parse_rate-Reads g table num text v i u some_digits digits all at spelled =
      let found : Reads num v g u = All-get_elem? (Reads num v g) table i u all at in
      rate_text num text u.suffix some_digits digits spelled found.0 ∙ found.1

  -- A decimal number that is positive, directly before a unit of bits in whatever case, is read
  -- as that many of it, an eighth in bytes: no shorter unit takes the end of a longer one.
  pub parse_rate-bits :
      (num text : Bytes) (v : F) (i : ℕ) (u : RateUnit)
      → num ≢ []
      → decimal num ≡ true
      → parse_float num ≡ some v
      → f.le v f.zero_f ≡ false
      → get_elem? units i ≡ some u
      → lower text ≡ u.suffix
      → parse_rate parse_float times eighth (num ++ text) ≡ rate (eighth (times v u.mult))
  unfolding cut_suffix no_space
  parse_rate-bits num text v i u some_digits digits read above at spelled =
      let g = in_bits parse_float times eighth in
      let n : parse_positive_float parse_float times eighth (num ++ []) ≡ rate v =
        number-rate num v some_digits digits read above in
      let each = λ (mult : ℕ). ap (scaled parse_float times eighth (λ v. g v mult)) n in
      parse_rate-Reads g units num text v i u some_digits digits
        (
          (refl, each 1_000_000_000),
          (
            (refl, each 1_000_000_000),
            (
              (refl, each 1_000_000),
              (
                (refl, each 1_000_000),
                ((refl, each 1000), ((refl, each 1000), ((refl, each 1), ((refl, each 1), tt)))),
              ),
            ),
          ),
        )
        at spelled

  -- A decimal number that is positive, directly before a unit of bytes in whatever case, is read
  -- as that many of it.
  pub parse_rate-bytes :
      (num text : Bytes) (v : F) (i : ℕ) (u : RateUnit)
      → num ≢ []
      → decimal num ≡ true
      → parse_float num ≡ some v
      → f.le v f.zero_f ≡ false
      → get_elem? byte_units i ≡ some u
      → lower text ≡ u.suffix
      → parse_rate parse_float times eighth (num ++ text) ≡ rate (times v u.mult)
  unfolding cut_suffix no_space
  parse_rate-bytes num text v i u some_digits digits read above at spelled =
      let n : parse_positive_float parse_float times eighth (num ++ []) ≡ rate v =
        number-rate num v some_digits digits read above in
      let each = λ (mult : ℕ). ap (scaled parse_float times eighth (λ v. times v mult)) n in
      parse_rate-Reads times byte_units num text v i u some_digits digits
        (
          (refl, each 1_000_000_000),
          ((refl, each 1_000_000), ((refl, each 1000), ((refl, each 1), tt))),
        )
        at spelled
