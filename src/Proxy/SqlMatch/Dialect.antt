-- ===== src/Proxy/SqlMatch/Dialect.antt =====
-- internal/proxy/sqlmatch/sqlmatch.go: placeholders of two dialects.
use faultbox.Base.{
  ℕ, ◌≡◌, refl, sym, ap, ◌∙◌, Bool, true, false, ◌&&◌, Option, none, some, [], ◌∷◌, ◌++◌, Bytes,
  arith, and-both,
}
use faultbox.Proxy.SqlMatch.{
  Mode, plain_mode, string_mode, second_mode, digits_mode, is_digit, two_byte, plain_round,
  round_of, first_byte, scan, strip, join_fields, canonicalize,
}

-- How the loop goes on behind a text that is followed by a placeholder.
unfoldable pub mode_after : Mode → Bytes → ℕ → Mode
unfolding round_of
mode_after mode [] next = mode
mode_after mode (c ∷ []) next = (round_of mode c (some next)).1
mode_after mode (c ∷ d ∷ s) next = mode_after (round_of mode c (some d)).1 (d ∷ s) next

unfoldable pub all_digits : Bytes → Bool
all_digits [] = true
all_digits (c ∷ s) = is_digit c && all_digits s

abbrev pub starts_with_digit : Bytes → Bool
starts_with_digit [] = false
starts_with_digit (c ∷ s) = is_digit c

-- A placeholder is not part of a literal, and not the second byte of an operator.
abbrev pub is_outside : Mode → Bool
is_outside plain_mode = true
is_outside digits_mode = true
is_outside _ = false

scan-digits :
    (ds rest : Bytes)
    → all_digits ds ≡ true
    → starts_with_digit rest ≡ false
    → scan digits_mode (ds ++ rest) ≡ scan plain_mode rest
unfolding all_digits scan round_of
scan-digits [] [] h end = refl
scan-digits [] (c ∷ rest) h end = rw (end) refl
scan-digits (d ∷ ds) rest h end =
    let both = and-both (is_digit d) (all_digits ds) h in
    rw (both.0) (scan-digits ds rest both.1 end)

round-next : (mode : Mode) (c : ℕ) → round_of mode c (some 36) ≡ round_of mode c (some 63)
unfolding round_of plain_round
round-next plain_mode c = ground arith
round-next string_mode c = refl
round-next second_mode c = refl
round-next digits_mode c = ground arith

round-numbered : (d : ℕ) → is_digit d ≡ true → plain_round 36 (some d) ≡ (36 ∷ 63 ∷ [], digits_mode)
unfolding plain_round
round-numbered d h = let alone : two_byte 36 (some d) ≡ false = ground arith in rw (alone, h) refl

round-question : (next : Option ℕ) → plain_round 63 next ≡ (36 ∷ 63 ∷ [], plain_mode)
unfolding plain_round
round-question none = refl
round-question (some d) = let alone : two_byte 63 (some d) ≡ false = ground arith in rw (alone) refl

module _ (d : ℕ) (ds post : Bytes) (digit : is_digit d ≡ true) (more : all_digits ds ≡ true)
    (end : starts_with_digit post ≡ false) where
  scan-at :
      (mode : Mode)
      → is_outside mode ≡ true
      → scan mode (36 ∷ d ∷ (ds ++ post)) ≡ scan mode (63 ∷ post)
  unfolding scan round_of
  scan-at plain_mode out =
      rw (round-numbered d digit, round-question (first_byte post), digit)
        (ap (λ s. 36 ∷ 63 ∷ s) (scan-digits ds post more end))
  scan-at digits_mode out =
      rw (round-numbered d digit, round-question (first_byte post), digit)
        (ap (λ s. 36 ∷ 63 ∷ s) (scan-digits ds post more end))
  scan-at string_mode out = absurd cc
  scan-at second_mode out = absurd cc

  scan-placeholder :
      (mode : Mode) (pre : Bytes)
      → is_outside (mode_after mode pre 63) ≡ true
      → scan mode (pre ++ 36 ∷ d ∷ (ds ++ post)) ≡ scan mode (pre ++ 63 ∷ post)
  unfolding scan mode_after
  scan-placeholder mode [] out = scan-at mode out
  scan-placeholder mode (c ∷ []) out =
      rw (round-next mode c)
        (ap (λ s. (round_of mode c (some 63)).0 ++ s) (scan-at (round_of mode c (some 63)).1 out))
  scan-placeholder mode (c ∷ e ∷ pre) out =
      ap (λ s. (round_of mode c (some e)).0 ++ s)
        (scan-placeholder (round_of mode c (some e)).1 (e ∷ pre) out)

-- Outside string literals, a placeholder of the form `$N`, with no digit behind it, and one of the
-- form `?` give one normal form, wherever they stand in a query without white space or `;` at its
-- ends.
pub canonicalize-placeholder :
    (pre : Bytes) (d : ℕ) (ds post : Bytes)
    → is_digit d ≡ true
    → all_digits ds ≡ true
    → starts_with_digit post ≡ false
    → is_outside (mode_after plain_mode pre 63) ≡ true
    → strip (pre ++ 36 ∷ d ∷ (ds ++ post)) ≡ pre ++ 36 ∷ d ∷ (ds ++ post)
    → strip (pre ++ 63 ∷ post) ≡ pre ++ 63 ∷ post
    → canonicalize (pre ++ 36 ∷ d ∷ (ds ++ post)) ≡ canonicalize (pre ++ 63 ∷ post)
unfolding canonicalize
canonicalize-placeholder pre d ds post digit more end out numbered_whole question_whole =
    ap (λ s. join_fields false false (scan plain_mode s)) numbered_whole
    ∙ ap (join_fields false false) (scan-placeholder d ds post digit more end plain_mode pre out)
    ∙ ap (λ s. join_fields false false (scan plain_mode s)) (sym question_whole)
