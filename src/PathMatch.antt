-- ===== src/PathMatch.antt =====
-- internal/pathmatch/pathmatch.go: the glob dialect of file path targeting. A pattern and a path
-- are byte lists; `pat[1:]` is the tail. `matchHere` shortens its pattern at every recursive call
-- and in every round of its loop, so it runs on fuel, and the length of the pattern is enough.
pub mod Class
pub mod Relation
pub mod Sound
pub mod Decides
pub mod Laws
mod Tests
use faultbox.Base.{
  ℕ, zero, suc, ◌+◌, Bool, true, false, not, ◌&&◌, ◌||◌, List, [], ◌∷◌, Option, none, some, leb,
  ◌==◌, if◌then◌else◌, length, drop, Bytes,
}

abbrev pub slash : ℕ
slash = b'/'

abbrev pub backslash : ℕ
backslash = 92

unfoldable pub is_empty : Bytes → Bool
is_empty [] = true
is_empty (c ∷ s) = false

-- `pat == "/**" && s == ""`
unfoldable pub is_dir_suffix : Bytes → Bytes → Bool
unfolding is_empty
is_dir_suffix (a ∷ b ∷ c ∷ []) s = (a == slash && (b == b'*' && c == b'*')) && is_empty s
is_dir_suffix _ s = false

-- The loop of `matchClass` over the bytes that are left, at index `i`. The result is the index of
-- the closing bracket with `found`, or `none` where the class is not terminated.
pub class_loop : Bytes → ℕ → Bool → Bool → ℕ → Option (ℕ × Bool)
class_loop [] i first found c = none
class_loop (a ∷ []) i first found c = if a == b']' && not first then some (i, found) else none
class_loop (a ∷ d ∷ []) i first found c =
    let escape = class_loop [] (i + 2) false (found || d == c) c in
    let single = class_loop (d ∷ []) (i + 1) false (found || a == c) c in
    if a == b']' && not first then some (i, found) else if a == backslash then escape else single
class_loop (a ∷ d ∷ b ∷ rest) i first found c =
    let escape = class_loop (b ∷ rest) (i + 2) false (found || d == c) c in
    let range = class_loop rest (i + 3) false (found || (leb a c && leb c b)) c in
    let single = class_loop (d ∷ b ∷ rest) (i + 1) false (found || a == c) c in
    if a == b']' && not first
    then some (i, found)
    else if a == backslash
    then escape
    else if d == b'-' && not (b == b']')
    then range
    else single

-- `found != negate`
abbrev differs : Bool → Bool → Bool
differs found true = not found
differs found false = found

abbrev class_result : Bool → Option (ℕ × Bool) → ℕ × Bool
class_result negate none = (0, false)
class_result negate (some (i, found)) = (i + 1, differs found negate)

abbrev class_after_bracket : Bytes → ℕ → ℕ × Bool
class_after_bracket [] c = class_result false (class_loop [] 1 true false c)
class_after_bracket (x ∷ rest) c =
    if x == b'!' || x == b'^'
    then class_result true (class_loop rest 2 true false c)
    else class_result false (class_loop (x ∷ rest) 1 true false c)

-- `matchClass`: the bytes consumed, and whether `c` is in the class. Its caller has seen the `[`.
unfoldable pub match_class : Bytes → ℕ → ℕ × Bool
match_class [] c = (0, false)
match_class (bracket ∷ rest) c = class_after_bracket rest c

-- `matchHere` on a shorter pattern
abbrev pub Next : Type 0
Next = Bytes → Bytes → Bool

-- for i := 0; i <= len(s); i++ { if matchHere(rest, s[i:]) { return true } }; return false
unfoldable pub try_deep : (Bytes → Bool) → Bytes → Bool
try_deep next [] = next []
try_deep next (c ∷ s) = if next (c ∷ s) then true else try_deep next s

-- The same up to the next separator.
unfoldable pub try_segment : (Bytes → Bool) → Bytes → Bool
try_segment next [] = next []
try_segment next (c ∷ s) =
    if next (c ∷ s) then true else if c == slash then false else try_segment next s

-- `**`, with what follows it
unfoldable pub deep_case : Next → Bytes → Bytes → Bool
deep_case next [] s = true
deep_case next (x ∷ rest) s =
    if x == slash
    then (if next rest s then true else try_deep (next (x ∷ rest)) s)
    else try_deep (next (x ∷ rest)) s

-- `*`, with what follows it
unfoldable pub star_case : Next → Bytes → Bytes → Bool
star_case next [] s = try_segment (next []) s
star_case next (x ∷ rest) s =
    if x == b'*' then deep_case next rest s else try_segment (next (x ∷ rest)) s

unfoldable pub any_case : Next → Bytes → Bytes → Bool
any_case next rest [] = false
any_case next rest (c ∷ s) = if c == slash then false else next rest s

unfoldable pub class_case : Next → Bytes → Bytes → Bool
class_case next pat [] = false
class_case next pat (c ∷ s) =
    if c == slash
    then false
    else let (n, found) = match_class pat c in if found then next (drop n pat) s else false

unfoldable pub escape_case : Next → Bytes → Bytes → Bool
escape_case next [] s = false
escape_case next (x ∷ rest) [] = false
escape_case next (x ∷ rest) (c ∷ s) = if c == x then next rest s else false

unfoldable pub literal_case : Next → ℕ → Bytes → Bytes → Bool
literal_case next x rest [] = false
literal_case next x rest (c ∷ s) = if c == x then next rest s else false

-- One round of the loop of `matchHere` at a pattern that begins with `x`.
unfoldable pub round : Next → ℕ → Bytes → Bytes → Bool
round next x rest s =
    if is_dir_suffix (x ∷ rest) s
    then true
    else if x == b'*'
    then star_case next rest s
    else if x == b'?'
    then any_case next rest s
    else if x == b'['
    then class_case next (x ∷ rest) s
    else if x == backslash
    then escape_case next rest s
    else literal_case next x rest s

unfoldable pub match_here : ℕ → Bytes → Bytes → Bool
match_here f [] s = is_empty s
match_here zero (x ∷ rest) s = false
match_here (suc f) (x ∷ rest) s = round (match_here f) x rest s

unfoldable pub match : Bytes → Bytes → Bool
unfolding match_here round star_case deep_case any_case class_case escape_case literal_case try_deep
    try_segment is_dir_suffix match_class class_loop
match [] path = true
match (x ∷ rest) path = match_here (length (x ∷ rest)) (x ∷ rest) path

-- `strings.ContainsAny(pattern, "*?[")`
unfoldable pub has_wildcard : Bytes → Bool
has_wildcard [] = false
has_wildcard (c ∷ s) = (c == b'*' || (c == b'?' || c == b'[')) || has_wildcard s

-- The loop of `MatchAny`.
unfoldable pub some_match : List Bytes → Bytes → Bool
some_match [] path = false
some_match (p ∷ ps) path = if match p path then true else some_match ps path

unfoldable pub match_any : List Bytes → Bytes → Bool
match_any [] path = true
match_any (p ∷ ps) path = some_match (p ∷ ps) path
