-- ===== src/Star/Interleavings/Permutation.antt =====
-- internal/star/interleavings.go: the branches that an ordering releases.
use mathlib.Core.List.{Perm}
use mathlib.Core.List.Perm
use mathlib.Core.Path.{subst}
use faultbox.Base.{
  ℕ, zero, suc, ◌+◌, ◌/◌, ◌%◌, ◌≤◌, ◌≡◌, refl, sym, ap, ◌∙◌, Bool, true, false, List, [], ◌∷◌, ltb,
  if◌then◌else◌, length, arith, Option, none, some, Option-cases, inl, inr,
}
use faultbox.Star.Leaf.{ParallelSite, PolicyKind, single, all, critical, first_n, unknown_kind}
use faultbox.Star.Expand.{factorial, critical_cap}
use faultbox.Star.Interleavings.{
  pick, delete_at, divide, on_digit, then_rest, permutation_from, range_from, permutation_by_index,
  identity_ordering, interleaving_ordering, policy_ordering,
}
use faultbox.Star.Interleavings.Digits.{divide-some}

pick-delete_at-Perm :
    (d x : ℕ) (pool : List ℕ) → Perm (pick d (x ∷ pool) ∷ delete_at d (x ∷ pool)) (x ∷ pool)
unfolding pick delete_at
pick-delete_at-Perm zero x pool = Perm.refl (x ∷ pool)
pick-delete_at-Perm (suc d) x [] = Perm.refl (x ∷ [])
pick-delete_at-Perm (suc d) x (y ∷ pool) =
    Perm.trans (Perm.swap x (pick d (y ∷ pool)) (delete_at d (y ∷ pool)))
      (Perm.cons x (pick-delete_at-Perm d y pool))

pub length-delete_at : (d x : ℕ) (pool : List ℕ) → length (delete_at d (x ∷ pool)) ≡ length pool
unfolding delete_at
length-delete_at zero x pool = refl
length-delete_at (suc d) x [] = refl
length-delete_at (suc d) x (y ∷ pool) = ap suc (length-delete_at d y pool)

-- A round of the loop that did not panic.
pub permutation_from-some :
    (n k : ℕ) (pool order : List ℕ)
    → permutation_from (suc n) k pool ≡ some order
    → (d rem : ℕ) × (rest : List ℕ) × (divide k (factorial n) ≡ some (d, rem))
      × (permutation_from n rem (delete_at d pool) ≡ some rest)
      × (order ≡ pick d pool ∷ rest)
unfolding permutation_from
permutation_from-some n k pool order h =
    let go : ℕ → ℕ → Option (List ℕ) =
      λ d rem. then_rest (pick d pool) (permutation_from n rem (delete_at d pool)) in
    elim (Option-cases (divide k (factorial n))) [
      | inl stuck ↦ let nothing : none ≡ some order = sym (ap (on_digit go) stuck) ∙ h in absurd cc
      | inr ((d, rem), e) ↦
          let whole : go d rem ≡ some order = sym (ap (on_digit go) e) ∙ h in
          elim (Option-cases (permutation_from n rem (delete_at d pool))) [
            | inl stuck ↦
                let nothing : none ≡ some order =
                  sym (ap (then_rest (pick d pool)) stuck) ∙ whole in
                absurd cc
            | inr (rest, more) ↦
                let found : some (pick d pool ∷ rest) ≡ some order =
                  sym (ap (then_rest (pick d pool)) more) ∙ whole in
                (d, rem, rest, e, more, cc)
          ]
    ]

permutation_from-Perm :
    (n k : ℕ) (pool order : List ℕ)
    → length pool ≡ n
    → permutation_from n k pool ≡ some order
    → Perm order pool
permutation_from-Perm zero k [] order h e =
    let ends : some [] ≡ some order = unfold permutation_from in e in
    let empty : [] ≡ order = cc in subst (λ (o : List ℕ). Perm o []) empty (Perm.refl [])
permutation_from-Perm zero k (x ∷ pool) order h e = absurd (omega arith)
permutation_from-Perm (suc n) k [] order h e = absurd (omega arith)
permutation_from-Perm (suc n) k (x ∷ pool) order h e =
    let (d, rem, rest, _, more, split) = permutation_from-some n k (x ∷ pool) order e in
    let tail =
      permutation_from-Perm n rem (delete_at d (x ∷ pool)) rest
        (omega (arith, length-delete_at d x pool, h)) more in
    subst (λ (o : List ℕ). Perm o (x ∷ pool)) (sym split)
      (Perm.trans (Perm.cons (pick d (x ∷ pool)) tail) (pick-delete_at-Perm d x pool))

-- Up to 21 entries no factorial wraps, and the loop gets to its end.
permutation_from-total :
    (n k : ℕ) (pool : List ℕ) → n ≤ 21 → (order : List ℕ) × (permutation_from n k pool ≡ some order)
unfolding permutation_from
permutation_from-total zero k pool h = ([], refl)
permutation_from-total (suc n) k pool h =
    let d = k / factorial n in
    let (rest, more) =
      permutation_from-total n (k % factorial n) (delete_at d pool) (omega (arith, h)) in
    let go : ℕ → ℕ → Option (List ℕ) =
      λ e rem. then_rest (pick e pool) (permutation_from n rem (delete_at e pool)) in
    (
      pick d pool ∷ rest,
      ap (on_digit go) (divide-some n k (omega (arith, h))) ∙ ap (then_rest (pick d pool)) more,
    )

pub length-range_from : (i n : ℕ) → length (range_from i n) ≡ n
unfolding range_from
length-range_from i zero = refl
length-range_from i (suc n) = ap suc (length-range_from (i + 1) n)

-- An order, and it has each of the `n` branches once.
abbrev Releases : ℕ → Option (List ℕ) → Type 0
Releases n o = (order : List ℕ) × (o ≡ some order) × Perm order (identity_ordering n)

permutation_by_index-Releases : (n k : ℕ) → n ≤ 21 → Releases n (permutation_by_index n k)
unfolding permutation_by_index identity_ordering
permutation_by_index-Releases n k h =
    let (order, e) = permutation_from-total n k (range_from 0 n) h in
    (order, e, permutation_from-Perm n k (range_from 0 n) order (length-range_from 0 n) e)

identity-Releases : (n : ℕ) → Releases n (some (identity_ordering n))
identity-Releases n = (identity_ordering n, refl, Perm.refl (identity_ordering n))

capped-Releases :
    (n k : ℕ) (within : Bool)
    → n ≤ 21
    → Releases n (if within then permutation_by_index n k else some (identity_ordering n))
capped-Releases n k true h = permutation_by_index-Releases n k h
capped-Releases n k false h = identity-Releases n

policy_ordering-Releases :
    (kind : PolicyKind) (n cap idx : ℕ) → n ≤ 21 → Releases n (policy_ordering kind n cap idx)
policy_ordering-Releases single n cap idx h = identity-Releases n
policy_ordering-Releases all n cap idx h = permutation_by_index-Releases n idx h
policy_ordering-Releases first_n n cap idx h = capped-Releases n idx (ltb idx cap) h
policy_ordering-Releases critical n cap idx h = capped-Releases n idx (ltb idx (critical_cap n)) h
policy_ordering-Releases unknown_kind n cap idx h = identity-Releases n

-- Whatever the policy and the index, up to 21 branches are released without a panic, in an order
-- that has each of them exactly once.
pub interleaving_ordering-Perm :
    (site : ParallelSite) (idx : ℕ)
    → site.branches ≤ 21
    → (order : List ℕ) × (interleaving_ordering site idx ≡ some order)
      × Perm order (identity_ordering site.branches)
unfolding interleaving_ordering
interleaving_ordering-Perm site idx h =
    policy_ordering-Releases site.policy.kind site.branches site.policy.n idx h
