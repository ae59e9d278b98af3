-- ===== src/PathMatch/Class.antt =====
-- internal/pathmatch/pathmatch.go, `matchClass`: how many bytes of the pattern a class takes.
use faultbox.Base.{
  ℕ, ◌+◌, ◌≤◌, ◌<◌, ◌≡◌, Bool, true, false, ◌||◌, [], ◌∷◌, Option, none, some, arith, ◌==◌, leb,
  ◌&&◌, length, Bytes,
}
use faultbox.PathMatch.{class_loop, match_class}

-- A closing bracket was found at an index inside the text that was left.
abbrev EndsWithin : Option (ℕ × Bool) → ℕ → ℕ → Type 0
EndsWithin none lo hi = Unit
EndsWithin (some (j, found)) lo hi = (lo ≤ j) × (j < hi)

class_loop-EndsWithin :
    (p : Bytes) (i : ℕ) (first found : Bool) (c : ℕ)
    → EndsWithin (class_loop p i first found c) i (i + length p)
unfolding class_loop
class_loop-EndsWithin [] i first found c = tt
class_loop-EndsWithin (a ∷ []) i first found c = ground arith
class_loop-EndsWithin (a ∷ d ∷ []) i first found c =
    ground (arith, class_loop-EndsWithin (d ∷ []) (i + 1) false (found || a == c) c)
class_loop-EndsWithin (a ∷ d ∷ b ∷ rest) i first found c = ground (
  arith,
  class_loop-EndsWithin (b ∷ rest) (i + 2) false (found || d == c) c,
  class_loop-EndsWithin rest (i + 3) false (found || (leb a c && leb c b)) c,
  class_loop-EndsWithin (d ∷ b ∷ rest) (i + 1) false (found || a == c) c,
)

-- A class that matches takes at least its opening bracket and one more byte, and never more bytes
-- than the pattern has: `pat[n:]` stays in bounds and shortens the pattern.
pub match_class_bounds :
    (p : Bytes) (c : ℕ)
    → (match_class p c).1 ≡ true
    → (2 ≤ (match_class p c).0) × ((match_class p c).0 ≤ length p)
unfolding match_class
match_class_bounds [] c h = ground arith
match_class_bounds (x ∷ []) c h = ground (arith, class_loop-EndsWithin [] 1 true false c)
match_class_bounds (x ∷ y ∷ rest) c h = ground (
  arith,
  class_loop-EndsWithin rest 2 true false c,
  class_loop-EndsWithin (y ∷ rest) 1 true false c,
)
