-- ===== src/PathMatch/Relation.antt =====
-- The pattern language of internal/pathmatch/pathmatch.go: what it means for a path to match a
-- pattern, with no search order in it.
use faultbox.Base.{ℕ, ◌≡◌, ◌≢◌, true, [], ◌∷◌, drop, Bytes, codes}
use faultbox.PathMatch.{slash, backslash, match_class}

-- What is left of a path after any run of bytes.
pub data Suffix : Bytes → Bytes → Type 0 where
  whole : {s : Bytes} → Suffix s s
  skip : {t s : Bytes} {c : ℕ} → Suffix t s → Suffix t (c ∷ s)

-- The same, where the run stays inside one path segment.
pub data SegmentSuffix : Bytes → Bytes → Type 0 where
  stay : {s : Bytes} → SegmentSuffix s s
  pass : {t s : Bytes} {c : ℕ} → c ≢ slash → SegmentSuffix t s → SegmentSuffix t (c ∷ s)

-- A byte that has no meaning of its own in a pattern.
pub record IsPlain (x : ℕ) : Type 0 where
  pub not_star : x ≢ b'*'
  pub not_any : x ≢ b'?'
  pub not_bracket : x ≢ b'['
  pub not_backslash : x ≢ backslash

-- A `*` before this is a single one.
abbrev pub NoStarAhead : Bytes → Type 0
NoStarAhead [] = Unit
NoStarAhead (x ∷ rest) = x ≢ b'*'

pub data Matches : Bytes → Bytes → Type 0 where
  done : {p s : Bytes} → p ≡ [] → s ≡ [] → Matches p s
  directory : {p s : Bytes} → p ≡ codes "/**" → s ≡ [] → Matches p s
  deep_end : {p s : Bytes} → p ≡ codes "**" → Matches p s
  deep_skip :
      {p s : Bytes} (rest : Bytes) → p ≡ b'*' ∷ b'*' ∷ slash ∷ rest → Matches rest s → Matches p s
  deep :
      {p s : Bytes} (x : ℕ) (rest t : Bytes)
      → p ≡ b'*' ∷ b'*' ∷ x ∷ rest
      → Suffix t s
      → Matches (x ∷ rest) t
      → Matches p s
  star :
      {p s : Bytes} (rest t : Bytes)
      → p ≡ b'*' ∷ rest
      → NoStarAhead rest
      → SegmentSuffix t s
      → Matches rest t
      → Matches p s
  any :
      {p s : Bytes} (rest : Bytes) (c : ℕ) (t : Bytes)
      → p ≡ b'?' ∷ rest
      → s ≡ c ∷ t
      → c ≢ slash
      → Matches rest t
      → Matches p s
  class :
      {p s : Bytes} (rest : Bytes) (c : ℕ) (t : Bytes)
      → p ≡ b'[' ∷ rest
      → s ≡ c ∷ t
      → c ≢ slash
      → (match_class (b'[' ∷ rest) c).1 ≡ true
      → Matches (drop (match_class (b'[' ∷ rest) c).0 (b'[' ∷ rest)) t
      → Matches p s
  escape :
      {p s : Bytes} (rest : Bytes) (c : ℕ) (t : Bytes)
      → p ≡ backslash ∷ c ∷ rest
      → s ≡ c ∷ t
      → Matches rest t
      → Matches p s
  literal :
      {p s : Bytes} (rest : Bytes) (c : ℕ) (t : Bytes)
      → p ≡ c ∷ rest
      → s ≡ c ∷ t
      → IsPlain c
      → Matches rest t
      → Matches p s
