-- ===== src/PathMatch/Decides.antt =====
-- internal/pathmatch/pathmatch.go: `Match` against the relation.
use faultbox.Base.{
  ℕ, zero, suc, ◌≤◌, ◌≡◌, ◌≢◌, refl, ap, ◌↔◌, Bool, true, [], ◌∷◌, arith, length, length-drop, drop,
  Bytes,
}
use faultbox.PathMatch.{
  slash, backslash, is_empty, is_dir_suffix, match_class, Next, try_deep, try_segment, deep_case,
  star_case, any_case, class_case, escape_case, literal_case, round, match_here, match,
}
use faultbox.PathMatch.Sound.{match_here-Matches}
use faultbox.PathMatch.Class.{match_class_bounds}
use faultbox.PathMatch.Relation.{
  Suffix, whole, skip, SegmentSuffix, stay, pass, IsPlain, NoStarAhead, Matches, done, directory,
  deep_end, deep_skip, deep, star, any, class, escape, literal,
}

Suffix-try_deep :
    (next : Bytes → Bool) {s t : Bytes} → Suffix t s → next t ≡ true → try_deep next s ≡ true
unfolding try_deep
Suffix-try_deep next {s = []} whole h = h
Suffix-try_deep next {s = c ∷ s} whole h = rw h
Suffix-try_deep next {s = c ∷ s} (skip tail) h = ground (arith, Suffix-try_deep next tail h)

Suffix-try_segment :
    (next : Bytes → Bool) {s t : Bytes}
    → SegmentSuffix t s
    → next t ≡ true
    → try_segment next s ≡ true
unfolding try_segment
Suffix-try_segment next {s = []} stay h = h
Suffix-try_segment next {s = c ∷ s} stay h = rw h
Suffix-try_segment next {s = c ∷ s} (pass ne tail) h =
    ground (arith, Suffix-try_segment next tail h)

pub Matches-nil : {p s : Bytes} → Matches p s → p ≡ [] → s ≡ []
Matches-nil (done e e') n = e'
Matches-nil (directory e e') n = e'
Matches-nil (deep_end e) n = cc
Matches-nil (deep_skip rest e d) n = cc
Matches-nil (deep x rest t e tail d) n = cc
Matches-nil (star rest t e ahead tail d) n = cc
Matches-nil (any rest c t e e' ne d) n = cc
Matches-nil (class rest c t e e' ne found d) n = cc
Matches-nil (escape rest c t e e' d) n = cc
Matches-nil (literal rest c t e e' plain d) n = cc

-- One round finds what the calls on a shorter pattern find.
module _ (next : Next) where
  round-deep :
      (x : ℕ) (rest s : Bytes)
      → try_deep (next (x ∷ rest)) s ≡ true
      → round next b'*' (b'*' ∷ x ∷ rest) s ≡ true
  unfolding round star_case deep_case
  round-deep x rest s h = ground arith

  round-deep_skip :
      (rest s : Bytes) → next rest s ≡ true → round next b'*' (b'*' ∷ slash ∷ rest) s ≡ true
  unfolding round star_case deep_case
  round-deep_skip rest s h = ground arith

  round-star :
      (rest s : Bytes)
      → NoStarAhead rest
      → try_segment (next rest) s ≡ true
      → round next b'*' rest s ≡ true
  unfolding round star_case
  round-star [] s ahead h = ground arith
  round-star (x ∷ rest) s ahead h = ground arith

  round-any :
      (rest s : Bytes) (c : ℕ)
      → c ≢ slash
      → next rest s ≡ true
      → round next b'?' rest (c ∷ s) ≡ true
  unfolding round any_case
  round-any rest s c ne h = ground arith

  round-class :
      (rest s : Bytes) (c : ℕ)
      → c ≢ slash
      → (match_class (b'[' ∷ rest) c).1 ≡ true
      → next (drop (match_class (b'[' ∷ rest) c).0 (b'[' ∷ rest)) s ≡ true
      → round next b'[' rest (c ∷ s) ≡ true
  unfolding round class_case
  round-class rest s c ne found h = ground arith

  round-escape :
      (rest s : Bytes) (c : ℕ) → next rest s ≡ true → round next backslash (c ∷ rest) (c ∷ s) ≡ true
  unfolding round escape_case
  round-escape rest s c h = ground arith

  round-literal :
      (rest s : Bytes) (c : ℕ) → IsPlain c → next rest s ≡ true → round next c rest (c ∷ s) ≡ true
  unfolding round literal_case
  round-literal rest s c plain h = ground arith

Matches-match_here : (f : ℕ) {p s : Bytes} → Matches p s → length p ≤ f → match_here f p s ≡ true
unfolding match_here
Matches-match_here zero {p = []} d h = rw (Matches-nil d refl) (unfold is_empty in refl)
Matches-match_here zero {p = x ∷ p} d h = absurd (omega arith)
Matches-match_here (suc f) (done e e') h = rw (e, e') (unfold is_empty in refl)
Matches-match_here (suc f) (directory e e') h = rw (e, e') (unfold round is_dir_suffix in refl)
Matches-match_here (suc f) {s} (deep_end e) h =
    rw e (unfold round star_case deep_case in ground arith)
Matches-match_here (suc f) {s} (deep_skip rest e d) h =
    rw e
      (round-deep_skip (match_here f) rest s (Matches-match_here f d (omega (arith, ap length e))))
Matches-match_here (suc f) {s} (deep x rest t e tail d) h = rw e (
    round-deep (match_here f) x rest s (
      Suffix-try_deep (match_here f (x ∷ rest)) tail
        (Matches-match_here f d (omega (arith, ap length e)))))
Matches-match_here (suc f) {s} (star rest t e ahead tail d) h = rw e (
    round-star (match_here f) rest s ahead (
      Suffix-try_segment (match_here f rest) tail
        (Matches-match_here f d (omega (arith, ap length e)))))
Matches-match_here (suc f) (any rest c t e e' ne d) h =
    rw (e, e')
      (round-any (match_here f) rest t c ne (Matches-match_here f d (omega (arith, ap length e))))
Matches-match_here (suc f) (class rest c t e e' ne found d) h =
    rw (e, e')
      (round-class (match_here f) rest t c ne found (
        Matches-match_here f d (
          omega (
            arith,
            ap length e,
            match_class_bounds (b'[' ∷ rest) c found,
            length-drop (match_class (b'[' ∷ rest) c).0 (b'[' ∷ rest),
          ))))
Matches-match_here (suc f) (escape rest c t e e' d) h =
    rw (e, e')
      (round-escape (match_here f) rest t c (Matches-match_here f d (omega (arith, ap length e))))
Matches-match_here (suc f) (literal rest c t e e' plain d) h =
    rw (e, e')
      (round-literal (match_here f) rest t c plain
        (Matches-match_here f d (omega (arith, ap length e))))

-- For every pattern that is not empty, the matcher accepts exactly the texts that the rules of the
-- pattern language derive.
pub match_iff : (p s : Bytes) → p ≢ [] → (match p s ≡ true) ↔ Matches p s
unfolding match
match_iff [] s ne = absurd (ne refl)
match_iff (x ∷ rest) s ne = (
  match_here-Matches (length (x ∷ rest)) (x ∷ rest) s,
  λ d. Matches-match_here (length (x ∷ rest)) d (omega arith),
)
