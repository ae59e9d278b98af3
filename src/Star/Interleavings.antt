-- ===== src/Star/Interleavings.antt =====
-- internal/star/interleavings.go: which order of the branches of a parallel() call an index of
-- the plan tree stands for.
pub mod Digits
pub mod Permutation
pub mod Distinct
use faultbox.Base.{
  ℕ, zero, suc, ◌+◌, ◌-◌, ◌*◌, ◌/◌, ◌%◌, ◌^◌, ◌≤◌, ◌<◌, ◌≡◌, Bool, true, false, List, [], ◌∷◌, ltb,
  leb, ◌==◌, if◌then◌else◌, length, Option, none, some, get_elem?,
}
use faultbox.Star.Leaf.{ParallelSite, PolicyKind, single, all, critical, first_n, unknown_kind}
use faultbox.Star.Expand.{factorial, critical_cap, interleaving_cardinality}

-- `pool[digit]`, clamped to the last entry of a pool that is not empty
unfoldable pub pick : ℕ → List ℕ → ℕ
pick d [] = 0
pick zero (x ∷ pool) = x
pick (suc d) (x ∷ []) = x
pick (suc d) (x ∷ y ∷ pool) = pick d (y ∷ pool)

-- `append(pool[:digit], pool[digit+1:]...)`, with the same clamp
unfoldable pub delete_at : ℕ → List ℕ → List ℕ
delete_at d [] = []
delete_at zero (x ∷ pool) = pool
delete_at (suc d) (x ∷ []) = []
delete_at (suc d) (x ∷ y ∷ pool) = x ∷ delete_at d (y ∷ pool)

-- `k / f` and `k % f`, for the bits of an `int` f: `none` where f is 0, so that the division
-- panics, and where the digit is negative, so that indexing the pool does.
unfoldable pub divide : ℕ → ℕ → Option (ℕ × ℕ)
divide k f =
    if f == 0
    then none
    else if ltb f (2 ^ 63)
    then some (k / f, k % f)
    else if ltb k (2 ^ 64 - f)
    then some (0, k)
    else none

abbrev pub then_rest : ℕ → Option (List ℕ) → Option (List ℕ)
then_rest x none = none
then_rest x (some rest) = some (x ∷ rest)

abbrev pub on_digit : (ℕ → ℕ → Option (List ℕ)) → Option (ℕ × ℕ) → Option (List ℕ)
on_digit go none = none
on_digit go (some (digit, rem)) = go digit rem

-- The Lehmer-code loop with `n` entries left in the pool, `none` for a panic. The table holds the
-- factorials below the number of branches.
unfoldable pub permutation_from : ℕ → ℕ → List ℕ → Option (List ℕ)
permutation_from zero k pool = some []
permutation_from (suc n) k pool =
    on_digit
      (λ digit rem. then_rest (pick digit pool) (permutation_from n rem (delete_at digit pool)))
      (divide k (factorial n))

unfoldable pub range_from : ℕ → ℕ → List ℕ
range_from i zero = []
range_from i (suc n) = i ∷ range_from (i + 1) n

-- `k < 0` is no case of a natural number.
unfoldable pub permutation_by_index : ℕ → ℕ → Option (List ℕ)
permutation_by_index n k = permutation_from n k (range_from 0 n)

unfoldable pub identity_ordering : ℕ → List ℕ
identity_ordering n = range_from 0 n

abbrev pub policy_ordering : PolicyKind → ℕ → ℕ → ℕ → Option (List ℕ)
policy_ordering single n cap idx = some (identity_ordering n)
policy_ordering all n cap idx = permutation_by_index n idx
policy_ordering first_n n cap idx =
    if ltb idx cap then permutation_by_index n idx else some (identity_ordering n)
policy_ordering critical n cap idx =
    if ltb idx (critical_cap n) then permutation_by_index n idx else some (identity_ordering n)
policy_ordering unknown_kind n cap idx = some (identity_ordering n)

unfoldable pub interleaving_ordering : ParallelSite → ℕ → Option (List ℕ)
interleaving_ordering site idx = policy_ordering site.policy.kind site.branches site.policy.n idx
