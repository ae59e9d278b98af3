-- ===== src/PathMatch/Sound.antt =====
-- internal/pathmatch/pathmatch.go: what `matchHere` accepts.
use faultbox.Base.{
  ℕ, zero, suc, ◌≡◌, refl, inl, inr, Bool, true, false, [], ◌∷◌, arith, ◌==◌, if-true, ==_iff,
  Bytes, codes,
}
use faultbox.PathMatch.{
  slash, backslash, is_empty, is_dir_suffix, match_class, Next, try_deep, try_segment, deep_case,
  star_case, any_case, class_case, escape_case, literal_case, round, match_here,
}
use faultbox.PathMatch.Relation.{
  Suffix, whole, skip, SegmentSuffix, stay, pass, IsPlain, Matches, done, directory, deep_end,
  deep_skip, deep, star, any, class, escape, literal,
}

is_empty→≡ : (s : Bytes) → is_empty s ≡ true → s ≡ []
unfolding is_empty
is_empty→≡ [] h = refl
is_empty→≡ (c ∷ s) h = ground arith

is_dir_suffix→≡ : (p s : Bytes) → is_dir_suffix p s ≡ true → (p ≡ codes "/**") × (s ≡ [])
unfolding is_dir_suffix
is_dir_suffix→≡ (a ∷ b ∷ c ∷ []) [] h = ground arith
is_dir_suffix→≡ (a ∷ b ∷ c ∷ []) (d ∷ s) h = ground arith
is_dir_suffix→≡ _ s h = ground arith

try_deep-Suffix :
    (next : Bytes → Bool) (s : Bytes)
    → try_deep next s ≡ true
    → (t : Bytes) × Suffix t s × (next t ≡ true)
unfolding try_deep
try_deep-Suffix next [] h = ([], whole, h)
try_deep-Suffix next (c ∷ s) h = elim (if-true (next (c ∷ s)) true (try_deep next s) h) [
  | inl (e, _) ↦ (c ∷ s, whole, e)
  | inr (_, e) ↦ let (t, tail, found) = try_deep-Suffix next s e in (t, skip tail, found)
]

try_segment-Suffix :
    (next : Bytes → Bool) (s : Bytes)
    → try_segment next s ≡ true
    → (t : Bytes) × SegmentSuffix t s × (next t ≡ true)
unfolding try_segment
try_segment-Suffix next [] h = ([], stay, h)
try_segment-Suffix next (c ∷ s) h = elim (if-true (next (c ∷ s)) true _ h) [
  | inl (e, _) ↦ (c ∷ s, stay, e)
  | inr (_, e) ↦ elim (if-true (c == slash) false (try_segment next s) e) [
    | inl (_, e') ↦ cc
    | inr (ne, e') ↦
        let (t, tail, found) = try_segment-Suffix next s e' in (t, pass (ground arith) tail, found)
  ]
]

-- The calls on a shorter pattern are right: the round is.
module _ (next : Next) (ih : (p s : Bytes) → next p s ≡ true → Matches p s) where
  deep_case-Matches :
      (rest s : Bytes) → deep_case next rest s ≡ true → Matches (b'*' ∷ b'*' ∷ rest) s
  unfolding deep_case
  deep_case-Matches [] s h = deep_end refl
  deep_case-Matches (x ∷ rest) s h = elim (if-true (x == slash) _ _ h) [
    | inl (e, h') ↦ elim (if-true (next rest s) true _ h') [
      | inl (found, _) ↦ rw ((==_iff x slash).0 e) (deep_skip rest refl (ih rest s found))
      | inr (_, h'') ↦ from_deep h''
    ]
    | inr (_, h') ↦ from_deep h'
  ]
    where
      from_deep : try_deep (next (x ∷ rest)) s ≡ true → Matches (b'*' ∷ b'*' ∷ x ∷ rest) s
      from_deep h =
          let (t, tail, found) = try_deep-Suffix (next (x ∷ rest)) s h in
          deep x rest t refl tail (ih (x ∷ rest) t found)

  star_case-Matches : (rest s : Bytes) → star_case next rest s ≡ true → Matches (b'*' ∷ rest) s
  unfolding star_case
  star_case-Matches [] s h =
      let (t, tail, found) = try_segment-Suffix (next []) s h in
      star [] t refl tt tail (ih [] t found)
  star_case-Matches (x ∷ rest) s h = elim (if-true (x == b'*') _ _ h) [
    | inl (e, h') ↦ rw ((==_iff x b'*').0 e) (deep_case-Matches rest s h')
    | inr (e, h') ↦
        let (t, tail, found) = try_segment-Suffix (next (x ∷ rest)) s h' in
        star (x ∷ rest) t refl (ground arith) tail (ih (x ∷ rest) t found)
  ]

  any_case-Matches : (rest s : Bytes) → any_case next rest s ≡ true → Matches (b'?' ∷ rest) s
  unfolding any_case
  any_case-Matches rest [] h = cc
  any_case-Matches rest (c ∷ s) h = elim (if-true (c == slash) false _ h) [
    | inl (_, e) ↦ cc
    | inr (e, h') ↦ any rest c s refl refl (ground arith) (ih rest s h')
  ]

  class_case-Matches :
      (rest s : Bytes) → class_case next (b'[' ∷ rest) s ≡ true → Matches (b'[' ∷ rest) s
  unfolding class_case
  class_case-Matches rest [] h = cc
  class_case-Matches rest (c ∷ s) h = elim (if-true (c == slash) false _ h) [
    | inl (_, e) ↦ cc
    | inr (e, h') ↦ elim (if-true (match_class (b'[' ∷ rest) c).1 _ false h') [
      | inl (found, h'') ↦ class rest c s refl refl (ground arith) found (ih _ s h'')
      | inr (_, e') ↦ cc
    ]
  ]

  escape_case-Matches :
      (rest s : Bytes) → escape_case next rest s ≡ true → Matches (backslash ∷ rest) s
  unfolding escape_case
  escape_case-Matches [] s h = cc
  escape_case-Matches (x ∷ rest) [] h = cc
  escape_case-Matches (x ∷ rest) (c ∷ s) h = elim (if-true (c == x) _ false h) [
    | inl (e, h') ↦ rw ((==_iff c x).0 e) (escape rest x s refl refl (ih rest s h'))
    | inr (_, e) ↦ cc
  ]

  literal_case-Matches :
      (x : ℕ) (rest s : Bytes)
      → IsPlain x
      → literal_case next x rest s ≡ true
      → Matches (x ∷ rest) s
  unfolding literal_case
  literal_case-Matches x rest [] p h = cc
  literal_case-Matches x rest (c ∷ s) p h = elim (if-true (c == x) _ false h) [
    | inl (e, h') ↦ rw ((==_iff c x).0 e) (literal rest x s refl refl p (ih rest s h'))
    | inr (_, e) ↦ cc
  ]

  round-Matches : (x : ℕ) (rest s : Bytes) → round next x rest s ≡ true → Matches (x ∷ rest) s
  unfolding round
  round-Matches x rest s h = elim (if-true (is_dir_suffix (x ∷ rest) s) true _ h) [
    | inl (e, _) ↦ let (ep, es) = is_dir_suffix→≡ (x ∷ rest) s e in directory ep es
    | inr (_, h1) ↦ elim (if-true (x == b'*') _ _ h1) [
      | inl (e, h2) ↦ rw ((==_iff x b'*').0 e) (star_case-Matches rest s h2)
      | inr (e1, h2) ↦ elim (if-true (x == b'?') _ _ h2) [
        | inl (e, h3) ↦ rw ((==_iff x b'?').0 e) (any_case-Matches rest s h3)
        | inr (e2, h3) ↦ elim (if-true (x == b'[') _ _ h3) [
          | inl (e, h4) ↦
              let x-bracket = (==_iff x b'[').0 e in
              rw x-bracket (class_case-Matches rest s (rw x-bracket at h4))
          | inr (e3, h4) ↦ elim (if-true (x == backslash) _ _ h4) [
            | inl (e, h5) ↦ rw ((==_iff x backslash).0 e) (escape_case-Matches rest s h5)
            | inr (e4, h5) ↦ literal_case-Matches x rest s (ground arith) h5
          ]
        ]
      ]
    ]
  ]

pub match_here-Matches : (f : ℕ) (p s : Bytes) → match_here f p s ≡ true → Matches p s
unfolding match_here
match_here-Matches zero [] s h = done refl (is_empty→≡ s h)
match_here-Matches (suc f) [] s h = done refl (is_empty→≡ s h)
match_here-Matches zero (x ∷ rest) s h = cc
match_here-Matches (suc f) (x ∷ rest) s h =
    round-Matches (match_here f) (match_here-Matches f) x rest s h
