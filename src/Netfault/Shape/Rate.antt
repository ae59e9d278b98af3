-- ===== src/Netfault/Shape/Rate.antt =====
-- internal/netfault/shape.go (ParseRate): the text of a rate. What strconv makes of a number and
-- the float64 arithmetic on it are arguments; letters and white space are those of ASCII.
pub mod Units
use faultbox.Base.{
  ℕ, ◌≡◌, refl, sym, ap, ◌∙◌, ◌<◌, Bool, true, false, not, ◌&&◌, ◌||◌, String, Option, none, some,
  List, [], ◌∷◌, ◌++◌, ◌==◌, leb, if◌then◌else◌, arith, Bytes, codes, All, get_elem?, inl, inr, ◌⊎◌,
}
use faultbox.Base.Float.{Float}
use faultbox.Base.Split.{
  trim_space, lower, bytes_eq, no_bytes, no_space, no_space-append, trim_space-no_space,
}

pub record RateUnit : Type 0 where
  pub suffix : Bytes
  pub mult : ℕ

abbrev unit_of : String → ℕ → RateUnit
unit_of name mult = record { suffix = codes name; mult = mult }

-- To bits per second, in the order in which they are tried.
abbrev pub units : List RateUnit
units =
    unit_of "gbps" 1_000_000_000
    ∷ unit_of "gbit" 1_000_000_000
    ∷ unit_of "mbps" 1_000_000
    ∷ unit_of "mbit" 1_000_000
    ∷ unit_of "kbps" 1000
    ∷ unit_of "kbit" 1000
    ∷ unit_of "bps" 1
    ∷ unit_of "bit" 1
    ∷ []

-- To bytes per second.
abbrev pub byte_units : List RateUnit
byte_units =
    unit_of "gb/s" 1_000_000_000
    ∷ unit_of "mb/s" 1_000_000
    ∷ unit_of "kb/s" 1000
    ∷ unit_of "b/s" 1
    ∷ []

pub data RateError : Type 0 where
  rate_is_empty no_unit missing_number not_a_number not_positive : RateError

pub data RateResult (F : Type 0) : Type 0 where
  rate : F → RateResult F
  refused : RateError → RateResult F

abbrev after_byte : ℕ → Option Bytes → Option Bytes
after_byte c none = none
after_byte c (some s) = some (c ∷ s)

-- `strings.CutSuffix`
unfoldable pub cut_suffix : Bytes → Bytes → Option Bytes
cut_suffix suffix [] = if no_bytes suffix then some [] else none
cut_suffix suffix (c ∷ s) =
    let rest = cut_suffix suffix s in if bytes_eq (c ∷ s) suffix then some [] else after_byte c rest

module _ {F : Type 0} (parse_float : Bytes → Option F) (times : F → ℕ → F) (eighth : F → F)
    ⦃f : Float F⦄ where
  abbrev positive_rate : Option F → RateResult F
  positive_rate none = refused not_a_number
  positive_rate (some v) = if f.le v f.zero_f then refused not_positive else rate v

  abbrev parse_number : Bytes → RateResult F
  parse_number [] = refused missing_number
  parse_number (c ∷ s) = positive_rate (parse_float (c ∷ s))

  unfoldable pub parse_positive_float : Bytes → RateResult F
  parse_positive_float s = parse_number (trim_space s)

  abbrev scaled : (F → F) → RateResult F → RateResult F
  scaled g (rate v) = rate (g v)
  scaled g (refused e) = refused e

  abbrev try_suffix : (F → F) → Option Bytes → RateResult F → RateResult F
  try_suffix g none otherwise = otherwise
  try_suffix g (some num) otherwise = scaled g (parse_positive_float num)

  -- One loop over a table: the first unit that is a suffix decides.
  unfoldable pub try_units : (F → ℕ → F) → List RateUnit → Bytes → RateResult F → RateResult F
  try_units g [] text otherwise = otherwise
  try_units g (u ∷ us) text otherwise =
      try_suffix (λ v. g v u.mult) (cut_suffix u.suffix text) (try_units g us text otherwise)

  abbrev in_bits : F → ℕ → F
  in_bits v mult = eighth (times v mult)

  abbrev by_units : Bytes → RateResult F
  by_units text = try_units times byte_units text (try_units in_bits units text (refused no_unit))

  abbrev rate_of : Bytes → RateResult F
  rate_of [] = refused rate_is_empty
  rate_of (c ∷ raw) = by_units (lower (c ∷ raw))

  unfoldable pub parse_rate : Bytes → RateResult F
  parse_rate s = rate_of (trim_space s)

-- The bytes of a decimal number.
abbrev pub is_decimal : ℕ → Bool
is_decimal c = c == 46 || (leb 48 c && leb c 57)

unfoldable pub decimal : Bytes → Bool
decimal [] = true
decimal (c ∷ s) = is_decimal c && decimal s
