-- ===== src/Base/Split.antt =====
-- What of the package strings walks a text, on bytes: white space and letters are those of ASCII.
use Prim.Native.Nat.{ℕ, zero, suc, ◌+◌, ◌-◌, ◌≤◌}
use mathlib.Core.Path.{◌≡◌, refl, ap, ◌∙◌}
use mathlib.Core.Bool.{Bool, true, false, not, ◌&&◌, ◌||◌}
use mathlib.Core.Option.{Option, none, some}
use mathlib.Core.List.{List, [], ◌∷◌, ◌++◌, append-nil}
use native.Mathlib.Omega.{arith}
use faultbox.Base.Tests.{◌==◌, leb, if◌then◌else◌}
use faultbox.Base.Lists.{length, All}
use faultbox.Base.Text.{Bytes}

abbrev pub is_space : ℕ → Bool
is_space c = (leb 9 c && leb c 13) || c == 32

abbrev pub no_bytes : Bytes → Bool
no_bytes [] = true
no_bytes (c ∷ s) = false

abbrev pub bytes_eq : Bytes → Bytes → Bool
bytes_eq [] [] = true
bytes_eq [] (d ∷ t) = false
bytes_eq (c ∷ s) [] = false
bytes_eq (c ∷ s) (d ∷ t) = c == d && bytes_eq s t

abbrev pub trim_left : Bytes → Bytes
trim_left [] = []
trim_left (c ∷ s) = if is_space c then trim_left s else c ∷ s

abbrev pub trim_right : Bytes → Bytes
trim_right [] = []
trim_right (c ∷ s) = let rest = trim_right s in if no_bytes rest && is_space c then [] else c ∷ rest

-- `strings.TrimSpace`
unfoldable pub trim_space : Bytes → Bytes
trim_space s = trim_right (trim_left s)

-- `strings.TrimSuffix` for one byte
abbrev pub trim_last : ℕ → Bytes → Bytes
trim_last b [] = []
trim_last b (c ∷ []) = if c == b then [] else c ∷ []
trim_last b (c ∷ d ∷ s) = c ∷ trim_last b (d ∷ s)

abbrev pub upper : Bytes → Bytes
upper [] = []
upper (c ∷ s) = (if leb 97 c && leb c 122 then c - 32 else c) ∷ upper s

abbrev pub lower_byte : ℕ → ℕ
lower_byte c = if leb 65 c && leb c 90 then c + 32 else c

abbrev pub lower : Bytes → Bytes
lower [] = []
lower (c ∷ s) = lower_byte c ∷ lower s

abbrev pub cut_on : ℕ → ℕ → Bytes → Option (Bytes × Bytes) → Option (Bytes × Bytes)
cut_on b c s rest =
    if c == b
    then some ([], s)
    else elim (rest) [ none ↦ none | some parts ↦ some (c ∷ parts.0, parts.1) ]

-- What is before and behind the first byte `b`.
abbrev pub cut : ℕ → Bytes → Option (Bytes × Bytes)
cut b [] = none
cut b (c ∷ s) = cut_on b c s (cut b s)

-- `strings.SplitN` at one byte into at most `k + 1` parts.
unfoldable pub split_n : ℕ → ℕ → Bytes → List Bytes
split_n zero b s = s ∷ []
split_n (suc k) b s = elim (cut b s) [ none ↦ s ∷ [] | some parts ↦ parts.0 ∷ split_n k b parts.1 ]

unfoldable pub lacks : ℕ → Bytes → Bool
lacks b [] = true
lacks b (c ∷ s) = not (c == b) && lacks b s

unfoldable pub no_space : Bytes → Bool
no_space [] = true
no_space (c ∷ s) = not (is_space c) && no_space s

cut-lacks : (b : ℕ) (s t : Bytes) → lacks b s ≡ true → cut b (s ++ b ∷ t) ≡ some (s, t)
unfolding lacks
cut-lacks b [] t h = ground arith
cut-lacks b (c ∷ s) t h =
    let rest : cut b (s ++ b ∷ t) ≡ some (s, t) = cut-lacks b s t (ground (arith, h)) in
    let other : (c == b) ≡ false = ground (arith, h) in rw (rest, other) refl

cut-none : (b : ℕ) (s : Bytes) → lacks b s ≡ true → cut b s ≡ none
unfolding lacks
cut-none b [] h = refl
cut-none b (c ∷ s) h =
    let rest : cut b s ≡ none = cut-none b s (ground (arith, h)) in
    let other : (c == b) ≡ false = ground (arith, h) in rw (rest, other) refl

pub split_n-first :
    (k b : ℕ) (s t : Bytes) → lacks b s ≡ true → split_n (suc k) b (s ++ b ∷ t) ≡ s ∷ split_n k b t
unfolding split_n
split_n-first k b s t h = rw (split_n, cut-lacks b s t h) refl

pub bytes_eq-path : (s t : Bytes) → bytes_eq s t ≡ true → s ≡ t
bytes_eq-path [] [] h = refl
bytes_eq-path [] (d ∷ t) h = absurd cc
bytes_eq-path (c ∷ s) [] h = absurd cc
bytes_eq-path (c ∷ s) (d ∷ t) h =
    let first : c ≡ d = ground (arith, h) in
    let rest : s ≡ t = bytes_eq-path s t (ground (arith, h)) in cc

-- Segments, each behind the separator.
unfoldable pub tail_of : ℕ → List Bytes → Bytes
tail_of b [] = []
tail_of b (s ∷ ss) = b ∷ (s ++ tail_of b ss)

pub split_n-tail_of :
    (k b : ℕ) (s : Bytes) (ss : List Bytes)
    → length ss ≤ k
    → lacks b s ≡ true
    → All (λ t. lacks b t ≡ true) ss
    → split_n k b (s ++ tail_of b ss) ≡ s ∷ ss
unfolding split_n tail_of
split_n-tail_of zero b s [] le h hs = ap (λ t. t ∷ []) (append-nil s)
split_n-tail_of (suc k) b s [] le h hs =
    let whole : split_n (suc k) b s ≡ s ∷ [] = rw (split_n, cut-none b s h) refl in
    ap (split_n (suc k) b) (append-nil s) ∙ whole
split_n-tail_of zero b s (t ∷ ss) le h hs = absurd (omega (arith, le))
split_n-tail_of (suc k) b s (t ∷ ss) le h hs =
    rw (split_n, cut-lacks b s (t ++ tail_of b ss) h)
      (ap (λ r. s ∷ r) (split_n-tail_of k b t ss (omega (arith, le)) hs.0 hs.1))

trim_right-no_space : (s : Bytes) → no_space s ≡ true → trim_right s ≡ s
unfolding no_space
trim_right-no_space [] h = refl
trim_right-no_space (c ∷ s) h =
    let rest : trim_right s ≡ s = trim_right-no_space s (ground (arith, h)) in
    let black : is_space c ≡ false = ground (arith, h) in rw (rest, black) (ground arith)

pub trim_space-no_space : (s : Bytes) → no_space s ≡ true → trim_space s ≡ s
unfolding trim_space no_space
trim_space-no_space [] h = refl
trim_space-no_space (c ∷ s) h =
    let black : is_space c ≡ false = ground (arith, h) in
    let kept : trim_left (c ∷ s) ≡ c ∷ s = rw (black) refl in
    ap trim_right kept ∙ trim_right-no_space (c ∷ s) (unfold no_space in h)

pub trim_last-append : (b : ℕ) (s : Bytes) → trim_last b (s ++ b ∷ []) ≡ s
trim_last-append b [] = ground arith
trim_last-append b (c ∷ []) = ap (λ t. c ∷ t) (trim_last-append b [])
trim_last-append b (c ∷ d ∷ s) = ap (λ t. c ∷ t) (trim_last-append b (d ∷ s))

pub lacks-append :
    (b : ℕ) (s t : Bytes) → lacks b s ≡ true → lacks b t ≡ true → lacks b (s ++ t) ≡ true
unfolding lacks
lacks-append b [] t hs ht = ht
lacks-append b (c ∷ s) t hs ht = ground (arith, hs, lacks-append b s t (ground (arith, hs)) ht)

pub no_space-append :
    (s t : Bytes) → no_space s ≡ true → no_space t ≡ true → no_space (s ++ t) ≡ true
unfolding no_space
no_space-append [] t hs ht = ht
no_space-append (c ∷ s) t hs ht = ground (arith, hs, no_space-append s t (ground (arith, hs)) ht)
