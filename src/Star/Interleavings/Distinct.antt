-- ===== src/Star/Interleavings/Distinct.antt =====
-- internal/star/interleavings.go: the orderings that two indices of one site stand for.
use faultbox.Base.{
  ℕ, zero, suc, ◌+◌, ◌*◌, ◌≤◌, ◌<◌, ◌≡◌, ◌≢◌, refl, sym, ap, List, [], ◌∷◌, ltb, length, arith, All,
  Bool-cases, inl, inr, some,
}
use faultbox.Star.Leaf.{ParallelSite, PolicyKind, single, all, critical, first_n, unknown_kind}
use faultbox.Star.Expand.{
  factorial, orderings, critical_cap, interleaving_cardinality, policy_cardinality,
}
use faultbox.Star.Interleavings.{
  pick, delete_at, permutation_from, range_from, permutation_by_index, interleaving_ordering,
  policy_ordering,
}
use faultbox.Star.Interleavings.Digits.{digit_limit, divide-digit}
use faultbox.Star.Interleavings.Permutation.{
  permutation_from-some, length-delete_at, length-range_from,
}

abbrev NoRepeats : List ℕ → Type 0
NoRepeats [] = Unit
NoRepeats (x ∷ pool) = All (λ y. x ≢ y) pool × NoRepeats pool

pick-All : (P : ℕ → Type 0) (d x : ℕ) (pool : List ℕ) → All P (x ∷ pool) → P (pick d (x ∷ pool))
unfolding pick
pick-All P zero x pool h = h.0
pick-All P (suc d) x [] h = h.0
pick-All P (suc d) x (y ∷ pool) h = pick-All P d y pool h.1

pick-injective :
    (d e x : ℕ) (pool : List ℕ)
    → NoRepeats (x ∷ pool)
    → d ≤ length pool
    → e ≤ length pool
    → pick d (x ∷ pool) ≡ pick e (x ∷ pool)
    → d ≡ e
unfolding pick
pick-injective zero zero x pool h hd he same = refl
pick-injective zero (suc e) x [] h hd he same = absurd (omega arith)
pick-injective (suc d) e x [] h hd he same = absurd (omega arith)
pick-injective zero (suc e) x (y ∷ pool) h hd he same =
    absurd (pick-All (λ z. x ≢ z) e y pool h.0 same)
pick-injective (suc d) zero x (y ∷ pool) h hd he same =
    absurd (pick-All (λ z. x ≢ z) d y pool h.0 (sym same))
pick-injective (suc d) (suc e) x (y ∷ pool) h hd he same =
    ap suc (pick-injective d e y pool h.1 (omega arith) (omega arith) same)

delete_at-All :
    (P : ℕ → Type 0) (d x : ℕ) (pool : List ℕ) → All P (x ∷ pool) → All P (delete_at d (x ∷ pool))
unfolding delete_at
delete_at-All P zero x pool h = h.1
delete_at-All P (suc d) x [] h = tt
delete_at-All P (suc d) x (y ∷ pool) h = (h.0, delete_at-All P d y pool h.1)

delete_at-NoRepeats :
    (d x : ℕ) (pool : List ℕ) → NoRepeats (x ∷ pool) → NoRepeats (delete_at d (x ∷ pool))
unfolding delete_at
delete_at-NoRepeats zero x pool h = h.1
delete_at-NoRepeats (suc d) x [] h = tt
delete_at-NoRepeats (suc d) x (y ∷ pool) h =
    (delete_at-All (λ z. x ≢ z) d y pool h.0, delete_at-NoRepeats d y pool h.1)

permutation_from-injective :
    (n k l : ℕ) (pool order : List ℕ)
    → k < digit_limit n
    → l < digit_limit n
    → length pool ≡ n
    → NoRepeats pool
    → permutation_from n k pool ≡ some order
    → permutation_from n l pool ≡ some order
    → k ≡ l
permutation_from-injective zero k l pool order hk hl len h ek el =
    unfold digit_limit factorial in omega (arith, hk, hl)
permutation_from-injective (suc n) k l [] order hk hl len h ek el = absurd (omega arith)
permutation_from-injective (suc n) k l (x ∷ pool) order hk hl len h ek el =
    let (d, rem, rest, e, more, split) = permutation_from-some n k (x ∷ pool) order ek in
    let (d', rem', rest', e', more', split') = permutation_from-some n l (x ∷ pool) order el in
    let whole = divide-digit n k d rem hk e in
    let whole' = divide-digit n l d' rem' hl e' in
    let heads : pick d (x ∷ pool) ≡ pick d' (x ∷ pool) = cc in
    let tails : rest ≡ rest' = cc in
    let digit : d ≡ d' =
      pick-injective d d' x pool h (omega (arith, len, whole.1)) (omega (arith, len, whole'.1))
        heads in
    let left : rem ≡ rem' =
      permutation_from-injective n rem rem' (delete_at d (x ∷ pool)) rest whole.2 whole'.2
        (omega (arith, length-delete_at d x pool, len)) (delete_at-NoRepeats d x pool h) more
        (cc) in
    omega (arith, whole.0, whole'.0, ap (λ (t : ℕ). factorial n * t) digit, left)

range_from-above : (j i n : ℕ) → j < i → All (λ y. j ≢ y) (range_from i n)
unfolding range_from
range_from-above j i zero h = tt
range_from-above j i (suc n) h = (omega arith, range_from-above j (i + 1) n (omega arith))

range_from-NoRepeats : (i n : ℕ) → NoRepeats (range_from i n)
unfolding range_from
range_from-NoRepeats i zero = tt
range_from-NoRepeats i (suc n) =
    (range_from-above i (i + 1) n (omega arith), range_from-NoRepeats (i + 1) n)

below_limit : (n k : ℕ) → k < orderings n → k < digit_limit n
unfolding orderings digit_limit
below_limit n k h = ground (arith, h)

-- The indices of `n` branches, as many as the factorial has, are as many orders.
pub permutation_by_index-injective :
    (n k l : ℕ) (order : List ℕ)
    → k < orderings n
    → l < orderings n
    → permutation_by_index n k ≡ some order
    → permutation_by_index n l ≡ some order
    → k ≡ l
unfolding permutation_by_index
permutation_by_index-injective n k l order hk hl ek el =
    permutation_from-injective n k l (range_from 0 n) order (below_limit n k hk)
      (below_limit n l hl) (length-range_from 0 n) (range_from-NoRepeats 0 n) ek el

critical_cap-le : (n : ℕ) → critical_cap n ≤ orderings n
unfolding critical_cap
critical_cap-le n = ground arith

policy_ordering-injective :
    (kind : PolicyKind) (n cap k l : ℕ) (order : List ℕ)
    → k < policy_cardinality kind n cap
    → l < policy_cardinality kind n cap
    → policy_ordering kind n cap k ≡ some order
    → policy_ordering kind n cap l ≡ some order
    → k ≡ l
policy_ordering-injective single n cap k l order hk hl ek el = absurd (omega arith)
policy_ordering-injective all n cap k l order hk hl ek el =
    permutation_by_index-injective n k l order hk hl ek el
policy_ordering-injective first_n n cap k l order hk hl ek el =
    permutation_by_index-injective n k l order (ground arith) (ground arith) (ground arith)
      (ground arith)
policy_ordering-injective critical n cap k l order hk hl ek el =
    permutation_by_index-injective n k l order (omega (arith, critical_cap-le n))
      (omega (arith, critical_cap-le n)) (ground arith) (ground arith)
policy_ordering-injective unknown_kind n cap k l order hk hl ek el = absurd (omega arith)

-- The indices below the cardinality that the plan tree counts are exactly as many orderings, for
-- any number of branches: no two of them release the branches in one order, so no leaf of a site is
-- run twice.
pub interleaving_ordering-injective :
    (site : ParallelSite) (k l : ℕ) (order : List ℕ)
    → k < interleaving_cardinality site
    → l < interleaving_cardinality site
    → interleaving_ordering site k ≡ some order
    → interleaving_ordering site l ≡ some order
    → k ≡ l
unfolding interleaving_cardinality interleaving_ordering
interleaving_ordering-injective site k l order hk hl ek el =
    elim (Bool-cases (ltb site.branches 2)) [
      | inl few ↦ absurd (ground arith)
      | inr many ↦
          policy_ordering-injective site.policy.kind site.branches site.policy.n k l order
            (rw many at hk) (rw many at hl) ek el
    ]
