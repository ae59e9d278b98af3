-- ===== src/Proxy/SqlMatch.antt =====
-- internal/proxy/sqlmatch/sqlmatch.go (Canonicalize): the normal form of a query, on bytes. White
-- space is that of ASCII. The loop over the index is a machine that sees one byte and the next.
pub mod Dialect
pub mod Tests
use faultbox.Base.{
  ℕ, ◌+◌, Bool, true, false, not, ◌&&◌, ◌||◌, Option, none, some, List, [], ◌∷◌, ◌++◌, Bytes, leb,
  ◌==◌, if◌then◌else◌,
}
use faultbox.Base.Split.{is_space, no_bytes, trim_space, trim_left}

-- `inString`; `second` when the byte is the second of an operator of two, and `digits` behind the
-- `$` of a is_numbered placeholder.
pub data Mode : Type 0 where
  plain_mode string_mode second_mode digits_mode : Mode

abbrev pub is_digit : ℕ → Bool
is_digit c = leb 48 c && leb c 57

-- `!=`, `<>`, `<=`, `>=`
abbrev pub two_byte : ℕ → Option ℕ → Bool
two_byte c none = false
two_byte c (some d) = (d == 61 && (c == 33 || (c == 60 || c == 62))) || (c == 60 && d == 62)

-- `=`, `<`, `>`, `,`, `(`, `)`
abbrev pub one_byte : ℕ → Bool
one_byte c = c == 61 || (c == 60 || (c == 62 || (c == 44 || (c == 40 || c == 41))))

abbrev pub is_numbered : ℕ → Option ℕ → Bool
is_numbered c none = false
is_numbered c (some d) = c == 36 && is_digit d

abbrev pub to_lower : ℕ → ℕ
to_lower c = if leb 65 c && leb c 90 then c + 32 else c

-- One round of the loop outside string literals: what it writes, and how it goes on.
unfoldable pub plain_round : ℕ → Option ℕ → Bytes × Mode
plain_round c next =
    if c == 39
    then (c ∷ [], string_mode)
    else if two_byte c next
    then (32 ∷ c ∷ [], second_mode)
    else if one_byte c
    then (32 ∷ c ∷ 32 ∷ [], plain_mode)
    else if c == 63
    then (36 ∷ 63 ∷ [], plain_mode)
    else if is_numbered c next
    then (36 ∷ 63 ∷ [], digits_mode)
    else (to_lower c ∷ [], plain_mode)

unfoldable pub round_of : Mode → ℕ → Option ℕ → Bytes × Mode
unfolding plain_round
round_of plain_mode c next = plain_round c next
round_of string_mode c next = (c ∷ [], if c == 39 then plain_mode else string_mode)
round_of second_mode c next = (c ∷ 32 ∷ [], plain_mode)
round_of digits_mode c next = if is_digit c then ([], digits_mode) else plain_round c next

abbrev pub first_byte : Bytes → Option ℕ
first_byte [] = none
first_byte (c ∷ s) = some c

unfoldable pub scan : Mode → Bytes → Bytes
unfolding round_of
scan mode [] = []
scan mode (c ∷ s) = let round = round_of mode c (first_byte s) in round.0 ++ scan round.1 s

-- `strings.TrimSpace`, and the loop that drops a `;` at the end: a text that ends in white space or
-- `;` loses it.
abbrev pub drop_end : Bytes → Bytes
drop_end [] = []
drop_end (c ∷ s) =
    let rest = drop_end s in if no_bytes rest && (is_space c || c == 59) then [] else c ∷ rest

unfoldable pub strip : Bytes → Bytes
strip sql = drop_end (trim_left sql)

-- `strings.Join(strings.Fields(_), " ")`: `open` while a field is being written, `seen` once there
-- was one.
unfoldable pub join_fields : Bool → Bool → Bytes → Bytes
join_fields seen in_field [] = []
join_fields seen in_field (c ∷ s) =
    let gap = join_fields seen false s in
    let more = join_fields true true s in
    if is_space c then gap else if not in_field && seen then 32 ∷ c ∷ more else c ∷ more

unfoldable pub canonicalize : Bytes → Bytes
unfolding scan strip join_fields
canonicalize sql = join_fields false false (scan plain_mode (strip sql))
