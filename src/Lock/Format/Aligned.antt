-- ===== src/Lock/Format/Aligned.antt =====
-- internal/lock/lock.go (Format): the columns of the table.
use faultbox.Base.{
  ℕ, zero, suc, ◌+◌, ◌-◌, ◌≤◌, ◌≡◌, refl, ap, List, [], ◌∷◌, ◌++◌, Bytes, codes, length,
  length-append, ltb, if◌then◌else◌, arith, All,
}
use faultbox.Lock.{Drift}
use faultbox.Lock.Format.{Row, rows, width, spaces, padded, kind_of, tag_of, locked_of, line_start}

width-ge : (column : Row → Bytes) (w : ℕ) (rs : List Row) → w ≤ width column w rs
unfolding width
width-ge column w [] = omega arith
width-ge column w (r ∷ rs) =
    ground (arith, width-ge column (if ltb w (length (column r)) then length (column r) else w) rs)

All-width :
    (column : Row → Bytes) (w : ℕ) (rs : List Row)
    → All (λ (r : Row). length (column r) ≤ width column w rs) rs
unfolding width
All-width column w [] = tt
All-width column w (r ∷ rs) =
    let w' : ℕ = if ltb w (length (column r)) then length (column r) else w in
    (ground (arith, width-ge column w' rs), All-width column w' rs)

length-spaces : (n : ℕ) → length (spaces n) ≡ n
length-spaces zero = refl
length-spaces (suc n) = ap suc (length-spaces n)

length-padded : (w : ℕ) (s : Bytes) → length s ≤ w → length (padded w s) ≡ w
unfolding padded
length-padded w s le =
    omega (arith, length-append s (spaces (w - length s)), length-spaces (w - length s), le)

length-line_start :
    (kind_w tag_w locked_w : ℕ) (r : Row)
    → length r.kind ≤ kind_w
    → length r.tag ≤ tag_w
    → length r.locked ≤ locked_w
    → length (line_start kind_w tag_w locked_w r) ≡ kind_w + tag_w + locked_w + 25
unfolding line_start
length-line_start kind_w tag_w locked_w r le_k le_t le_l =
    let last : Bytes = padded locked_w r.locked ++ codes "   current " in
    let middle : Bytes = padded tag_w r.tag ++ (codes "   locked " ++ last) in
    omega (
      arith,
      length-append (padded kind_w r.kind) (codes "  " ++ middle),
      length-append (padded tag_w r.tag) (codes "   locked " ++ last),
      length-append (padded locked_w r.locked) (codes "   current "),
      length-padded kind_w r.kind le_k,
      length-padded tag_w r.tag le_t,
      length-padded locked_w r.locked le_l,
    )

aligned_rows :
    (kind_w tag_w locked_w : ℕ) (rs : List Row)
    → All (λ (r : Row). length r.kind ≤ kind_w) rs
    → All (λ (r : Row). length r.tag ≤ tag_w) rs
    → All (λ (r : Row). length r.locked ≤ locked_w) rs
    → All
        (λ (r : Row). length (line_start kind_w tag_w locked_w r) ≡ kind_w + tag_w + locked_w + 25)
        rs
aligned_rows kind_w tag_w locked_w [] k t l = tt
aligned_rows kind_w tag_w locked_w (r ∷ rs) k t l = (
  length-line_start kind_w tag_w locked_w r k.0 t.0 l.0,
  aligned_rows kind_w tag_w locked_w rs k.1 t.1 l.1,
)

-- In the table of a drift the last column starts at one and the same place in every line.
pub rows-aligned :
    (d : Drift)
    → let rs = rows d in
      let kind_w = width kind_of 0 rs in
      let tag_w = width tag_of 0 rs in
      let locked_w = width locked_of 0 rs in
      All
        (λ (r : Row). length (line_start kind_w tag_w locked_w r) ≡ kind_w + tag_w + locked_w + 25)
        rs
rows-aligned d =
    let rs : List Row = rows d in
    aligned_rows (width kind_of 0 rs) (width tag_of 0 rs) (width locked_of 0 rs) rs
      (All-width kind_of 0 rs) (All-width tag_of 0 rs) (All-width locked_of 0 rs)
