-- ===== src/Lock/Format.antt =====
-- internal/lock/lock.go (Format): a drift as a table. Text is bytes, and one byte is one column
-- of the table, as in ASCII. How fmt writes a number is an argument.
pub mod Aligned
use faultbox.Base.{
  ℕ, zero, suc, ◌+◌, ◌-◌, Bool, true, false, Option, none, some, List, [], ◌∷◌, ◌++◌, String, Bytes,
  codes, length, take, ltb, has_prefix, drop, map, if◌then◌else◌,
}
use faultbox.Base.Dict.{Dict, lookup}
use faultbox.Base.Names.{keys}
use faultbox.Base.Sort.{sort_strings}
use faultbox.Lock.{Change, Drift, empty}

pub record Row : Type 0 where
  pub kind : Bytes
  pub tag : Bytes
  pub locked : Bytes
  pub current : Bytes

unfoldable pub trim_prefix : Bytes → Bytes → Bytes
trim_prefix prefix s = if has_prefix s prefix then drop (length prefix) s else s

unfoldable pub short_digest : Bytes → Bytes
unfolding trim_prefix
short_digest d =
    let hex = trim_prefix (codes "sha256:") d in
    codes "sha256:" ++ (if ltb 12 (length hex) then take 12 hex else hex)

unfoldable pub digest_for_display : Bytes → Bytes
unfolding short_digest
digest_for_display [] = codes "<unknown>"
digest_for_display (c ∷ d) = if has_prefix (c ∷ d) (codes "<") then c ∷ d else short_digest (c ∷ d)

abbrev shown : Option String → Bytes
shown none = digest_for_display []
shown (some d) = digest_for_display (codes d)

abbrev new_rows : Bytes → Dict String → List String → List Row
new_rows kind observed [] = []
new_rows kind observed (tag ∷ tags) =
    record {
      kind = kind;
      tag = codes tag;
      locked = codes "<not in lock>";
      current = shown (lookup tag observed);
    }
    ∷ new_rows kind observed tags

abbrev removed_rows : Bytes → Bytes → Dict String → List String → List Row
removed_rows kind gone locked [] = []
removed_rows kind gone locked (tag ∷ tags) =
    record { kind = kind; tag = codes tag; locked = shown (lookup tag locked); current = gone }
    ∷ removed_rows kind gone locked tags

abbrev changed_row : Bytes → String → Option Change → List Row → List Row
changed_row kind tag none rows = rows
changed_row kind tag (some ch) rows =
    record {
      kind = kind;
      tag = codes tag;
      locked = digest_for_display (codes ch.before);
      current = digest_for_display (codes ch.after);
    }
    ∷ rows

abbrev changed_rows : Bytes → Dict Change → List String → List Row
changed_rows kind changed [] = []
changed_rows kind changed (tag ∷ tags) =
    changed_row kind tag (lookup tag changed) (changed_rows kind changed tags)

unfoldable pub rows : Drift → List Row
rows d =
    new_rows (codes "image") d.observed d.new_images
    ++ (removed_rows (codes "image") (codes "<not found locally>") d.locked d.removed_images
        ++ (changed_rows (codes "image") d.changed_images (sort_strings (keys d.changed_images))
            ++ (new_rows (codes "binary") d.observed_binaries d.new_binaries
                ++ (removed_rows (codes "binary") (codes "<not found on disk>") d.locked_binaries
                      d.removed_binaries
                    ++ changed_rows (codes "binary") d.changed_binaries
                        (sort_strings (keys d.changed_binaries))))))

-- The width of a column: the loop keeps the greatest length.
unfoldable pub width : (Row → Bytes) → ℕ → List Row → ℕ
width column w [] = w
width column w (r ∷ rs) =
    width column (if ltb w (length (column r)) then length (column r) else w) rs

abbrev pub spaces : ℕ → Bytes
spaces zero = []
spaces (suc n) = 32 ∷ spaces n

-- `%-*s`
unfoldable pub padded : ℕ → Bytes → Bytes
padded w s = s ++ spaces (w - length s)

abbrev pub kind_of : Row → Bytes
kind_of r = r.kind

abbrev pub tag_of : Row → Bytes
tag_of r = r.tag

abbrev pub locked_of : Row → Bytes
locked_of r = r.locked

-- A line up to its last column.
unfoldable pub line_start : ℕ → ℕ → ℕ → Row → Bytes
unfolding padded
line_start kind_w tag_w locked_w r =
    codes "  "
    ++ (padded kind_w r.kind
        ++ (codes "  "
            ++ (padded tag_w r.tag
                ++ (codes "   locked " ++ (padded locked_w r.locked ++ codes "   current ")))))

abbrev lines : ℕ → ℕ → ℕ → List Row → Bytes
lines kind_w tag_w locked_w [] = []
lines kind_w tag_w locked_w (r ∷ rs) =
    line_start kind_w tag_w locked_w r ++ (r.current ++ (10 ∷ lines kind_w tag_w locked_w rs))

unfoldable pub format : (ℕ → Bytes) → Drift → Bytes
unfolding rows width line_start empty
format decimal d =
    if empty d
    then []
    else codes "drift detected ("
      ++ (decimal (length (rows d))
          ++ (codes " entries):"
              ++ (10
                  ∷ lines (width kind_of 0 (rows d)) (width tag_of 0 (rows d))
                      (width locked_of 0 (rows d)) (rows d))))
