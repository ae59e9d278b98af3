-- ===== src/PathMatch/Laws.antt =====
-- internal/pathmatch/pathmatch.go: what the patterns that specs are written with mean: a literal
-- path, the entries of a directory, and a whole tree.
use mathlib.Core.List.{append-nil}
use faultbox.Base.{
  ℕ, ◌≡◌, ◌≢◌, refl, sym, ap, ◌∙◌, ◌↔◌, ◌⊎◌, inl, inr, true, false, [], ◌∷◌, ◌++◌, arith, All,
  Bytes, codes,
}
use faultbox.PathMatch.{slash, backslash, has_wildcard, match}
use faultbox.PathMatch.Relation.{
  SegmentSuffix, stay, pass, IsPlain, Matches, done, directory, deep_end, deep_skip, deep, star,
  any, class, escape, literal,
}
use faultbox.PathMatch.Decides.{match_iff, Matches-nil}

-- The ways in which a path matches a pattern that begins with a plain byte.
abbrev PlainStep : ℕ → Bytes → Bytes → Type 0
PlainStep c rest s =
    ((c ∷ rest ≡ codes "/**") × (s ≡ [])) ⊎ ((t : Bytes) × (s ≡ c ∷ t) × Matches rest t)

Matches-PlainStep :
    {p s : Bytes} (c : ℕ) (rest : Bytes)
    → IsPlain c
    → Matches p s
    → p ≡ c ∷ rest
    → PlainStep c rest s
Matches-PlainStep c rest plain (done e e') n = cc
Matches-PlainStep c rest plain (directory e e') n = inl (sym n ∙ e, e')
Matches-PlainStep c rest plain (deep_end e) n = ground arith
Matches-PlainStep c rest plain (deep_skip r e d) n = ground arith
Matches-PlainStep c rest plain (deep x r t e tail d) n = ground arith
Matches-PlainStep c rest plain (star r t e ahead tail d) n = ground arith
Matches-PlainStep c rest plain (any r c' t e e' ne d) n = ground arith
Matches-PlainStep c rest plain (class r c' t e e' ne found d) n = ground arith
Matches-PlainStep c rest plain (escape r c' t e e' d) n = ground arith
Matches-PlainStep c rest plain (literal r c' t e e' plain' d) n =
    let same : r ≡ rest = cc in inr (t, cc, rw (← same) d)

plain_tail : (c : ℕ) (pre q : Bytes) → All IsPlain pre → c ∷ pre ++ slash ∷ q ≢ codes "/**"
plain_tail c [] q plain e = ground arith
plain_tail c (d ∷ pre) q plain e = ground arith

-- Plain bytes before a separator are matched one by one.
Matches-prefix :
    (pre q s : Bytes)
    → All IsPlain pre
    → Matches (pre ++ slash ∷ q) s
    → (t : Bytes) × (s ≡ pre ++ t) × Matches (slash ∷ q) t
Matches-prefix [] q s plain d = (s, refl, d)
Matches-prefix (c ∷ pre) q s plain d =
    elim (Matches-PlainStep c (pre ++ slash ∷ q) plain.0 d refl) [
      | inl (e, _) ↦ absurd (plain_tail c pre q plain.1 e)
      | inr (t, e, d') ↦
          let (u, e', d'') = Matches-prefix pre q t plain.1 d' in (u, e ∙ ap (◌∷◌ c) e', d'')
    ]

prefix-Matches : (pre q s : Bytes) → All IsPlain pre → Matches q s → Matches (pre ++ q) (pre ++ s)
prefix-Matches [] q s plain d = d
prefix-Matches (c ∷ pre) q s plain d =
    literal (pre ++ q) c (pre ++ s) refl refl plain.0 (prefix-Matches pre q s plain.1 d)

slash-IsPlain : IsPlain slash
slash-IsPlain = ground arith

literal_path : (p s : Bytes) → All IsPlain p → Matches p s → s ≡ p
literal_path [] s plain d = Matches-nil d refl
literal_path (c ∷ rest) s plain d = elim (Matches-PlainStep c rest plain.0 d refl) [
  | inl (e, _) ↦ absurd (not_tree rest plain.1 e)
  | inr (t, e, d') ↦ e ∙ ap (◌∷◌ c) (literal_path rest t plain.1 d')
]
  where
    not_tree : (r : Bytes) → All IsPlain r → c ∷ r ≢ codes "/**"
    not_tree [] plain e = cc
    not_tree (x ∷ r) plain e = ground arith

literal_self : (p : Bytes) → All IsPlain p → Matches p p
literal_self [] plain = done refl refl
literal_self (c ∷ rest) plain = literal rest c rest refl refl plain.0 (literal_self rest plain.1)

no_wildcard-IsPlain :
    (p : Bytes) → has_wildcard p ≡ false → All (λ c. c ≢ backslash) p → All IsPlain p
unfolding has_wildcard
no_wildcard-IsPlain [] h escapes = tt
no_wildcard-IsPlain (c ∷ p) h escapes =
    (ground arith, no_wildcard-IsPlain p (ground arith) escapes.1)

-- A pattern with no wildcard and no backslash matches the path that it spells, and no other.
pub match-literal :
    (p s : Bytes)
    → p ≢ []
    → has_wildcard p ≡ false
    → All (λ c. c ≢ backslash) p
    → (match p s ≡ true) ↔ (s ≡ p)
match-literal p s ne h escapes =
    let plain = no_wildcard-IsPlain p h escapes in
    let meaning = match_iff p s ne in
    (λ m. literal_path p s plain (meaning.0 m), λ e. meaning.1 (rw e (literal_self p plain)))

Matches-tree : (s : Bytes) → Matches (codes "/**") s → (s ≡ []) ⊎ ((t : Bytes) × (s ≡ slash ∷ t))
Matches-tree s d = elim (Matches-PlainStep slash (codes "**") slash-IsPlain d refl) [
  | inl (_, e) ↦ inl e
  | inr (t, e, _) ↦ inr (t, e)
]

SegmentSuffix-nil : {t s : Bytes} → SegmentSuffix t s → t ≡ [] → All (λ c. c ≢ slash) s
SegmentSuffix-nil stay e = rw e tt
SegmentSuffix-nil (pass ne tail) e = (ne, SegmentSuffix-nil tail e)

nil-SegmentSuffix : (s : Bytes) → All (λ c. c ≢ slash) s → SegmentSuffix [] s
nil-SegmentSuffix [] h = stay
nil-SegmentSuffix (c ∷ s) h = pass h.0 (nil-SegmentSuffix s h.1)

Matches-star : {p s : Bytes} → Matches p s → p ≡ codes "*" → All (λ c. c ≢ slash) s
Matches-star (done e e') n = cc
Matches-star (directory e e') n = cc
Matches-star (deep_end e) n = cc
Matches-star (deep_skip r e d) n = cc
Matches-star (deep x r t e tail d) n = cc
Matches-star (star r t e ahead tail d) n = SegmentSuffix-nil tail (Matches-nil d (cc))
Matches-star (any r c t e e' ne d) n = ground arith
Matches-star (class r c t e e' ne found d) n = ground arith
Matches-star (escape r c t e e' d) n = ground arith
Matches-star (literal r c t e e' plain d) n = ground arith

append-ne-nil : (dir q : Bytes) → dir ++ slash ∷ q ≢ []
append-ne-nil [] q e = cc
append-ne-nil (c ∷ dir) q e = cc

tree_self : (dir : Bytes) → All IsPlain dir → Matches (dir ++ codes "/**") dir
tree_self [] plain = directory refl refl
tree_self (c ∷ dir) plain = literal _ c dir refl refl plain.0 (tree_self dir plain.1)

-- `dir/**` matches the directory itself and every path below it, at any depth, and nothing else.
pub match-tree :
    (dir s : Bytes)
    → All IsPlain dir
    → (match (dir ++ codes "/**") s ≡ true) ↔ ((s ≡ dir) ⊎ ((t : Bytes) × (s ≡ dir ++ slash ∷ t)))
match-tree dir s plain = (forward, backward)
  where
    meaning : (match (dir ++ codes "/**") s ≡ true) ↔ Matches (dir ++ codes "/**") s
    meaning = match_iff _ s (append-ne-nil dir (codes "**"))

    forward :
        match (dir ++ codes "/**") s ≡ true → (s ≡ dir) ⊎ ((t : Bytes) × (s ≡ dir ++ slash ∷ t))
    forward m =
        let (u, e, d) = Matches-prefix dir (codes "**") s plain (meaning.0 m) in
        elim (Matches-tree u d) [
          | inl e' ↦ inl (e ∙ ap (◌++◌ dir) e' ∙ append-nil dir)
          | inr (t, e') ↦ inr (t, e ∙ ap (◌++◌ dir) e')
        ]

    backward :
        (s ≡ dir) ⊎ ((t : Bytes) × (s ≡ dir ++ slash ∷ t)) → match (dir ++ codes "/**") s ≡ true
    backward (inl e) = meaning.1 (rw e (tree_self dir plain))
    backward (inr (t, e)) = meaning.1 (
        rw e (
          prefix-Matches dir (codes "/**") (slash ∷ t) plain
            (literal _ slash t refl refl slash-IsPlain (deep_end refl))))

-- `dir/*` matches the entries of the directory: what follows the separator has no separator in it.
pub match-entries :
    (dir s : Bytes)
    → All IsPlain dir
    → (match (dir ++ codes "/*") s ≡ true)
      ↔ ((name : Bytes) × (s ≡ dir ++ slash ∷ name) × All (λ c. c ≢ slash) name)
match-entries dir s plain = (forward, backward)
  where
    meaning : (match (dir ++ codes "/*") s ≡ true) ↔ Matches (dir ++ codes "/*") s
    meaning = match_iff _ s (append-ne-nil dir (codes "*"))

    forward :
        match (dir ++ codes "/*") s ≡ true
        → (name : Bytes) × (s ≡ dir ++ slash ∷ name) × All (λ c. c ≢ slash) name
    forward m =
        let (u, e, d) = Matches-prefix dir (codes "*") s plain (meaning.0 m) in
        elim (Matches-PlainStep slash (codes "*") slash-IsPlain d refl) [
          | inl (e', _) ↦ absurd (ground arith)
          | inr (t, e', d') ↦ (t, e ∙ ap (◌++◌ dir) e', Matches-star d' refl)
        ]

    backward :
        (name : Bytes) × (s ≡ dir ++ slash ∷ name) × All (λ c. c ≢ slash) name
        → match (dir ++ codes "/*") s ≡ true
    backward (name, e, h) = meaning.1 (
        rw e (
          prefix-Matches dir (codes "/*") (slash ∷ name) plain (
            literal _ slash name refl refl slash-IsPlain
              (star [] [] refl tt (nil-SegmentSuffix name h) (done refl refl)))))
