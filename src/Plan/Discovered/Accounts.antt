-- ===== src/Plan/Discovered/Accounts.antt =====
-- internal/plan/enumerate.go (buildTests): the tests that stand for a name.
use text.Mathlib.Text.{starts_with}
use faultbox.Base.{
  ◌≡◌, refl, ap, ◌∙◌, Bool, true, false, ◌||◌, List, [], ◌∷◌, ◌++◌, String, str_eq, eq_iff,
  if◌then◌else◌, arith, Bool-cases, inl, inr,
}
use faultbox.Base.Names.{has, has-append}
use faultbox.Base.Sort.{insert_by, sort_by, names_of}
use faultbox.Plan.{PlanTest}
use faultbox.Plan.Enumerate.{Building, append_test, add_all, test_name}

unfoldable pub any_starts : String → List String → Bool
any_starts prefix [] = false
any_starts prefix (x ∷ xs) = starts_with x prefix || any_starts prefix xs

pub any_starts-has :
    (k prefix : String) (xs : List String)
    → any_starts prefix xs ≡ false
    → starts_with k prefix ≡ true
    → has k xs ≡ false
unfolding any_starts has
any_starts-has k prefix [] none_starts at = refl
any_starts-has k prefix (x ∷ xs) none_starts at = elim (Bool-cases (str_eq x k)) [
  | inl same ↦
      let e : starts_with x prefix ≡ true =
        ap (λ i. starts_with i prefix) ((eq_iff x k).0 same) ∙ at in
      absurd (ground (arith, e, none_starts))
  | inr apart ↦ ground (arith, apart, any_starts-has k prefix xs (ground (arith, none_starts)) at)
]

-- The test itself, or the test of a matrix with a cell of that name.
abbrev pub stands_for : String → PlanTest → Bool
stands_for k t = str_eq t.name k || has k t.matrix_cells

-- Some test of the plan stands for the name.
unfoldable pub accounts : String → List PlanTest → Bool
accounts k [] = false
accounts k (t ∷ ts) = stands_for k t || accounts k ts

pub accounts-append :
    (k : String) (ts us : List PlanTest) → accounts k (ts ++ us) ≡ (accounts k ts || accounts k us)
unfolding accounts
accounts-append k [] us = refl
accounts-append k (t ∷ ts) us = ground (arith, accounts-append k ts us)

accounts-insert_by :
    (k : String) (t : PlanTest) (ts : List PlanTest)
    → accounts k (insert_by test_name t ts) ≡ (stands_for k t || accounts k ts)
unfolding accounts insert_by
accounts-insert_by k t [] = refl
accounts-insert_by k t (u ∷ us) = ground (arith, accounts-insert_by k t us)

pub accounts-sort_by :
    (k : String) (ts : List PlanTest) → accounts k (sort_by test_name ts) ≡ accounts k ts
unfolding accounts sort_by
accounts-sort_by k [] = refl
accounts-sort_by k (t ∷ ts) =
    accounts-insert_by k t (sort_by test_name ts)
    ∙ ap (λ b. stands_for k t || b) (accounts-sort_by k ts)

pub accounts-names :
    (k : String) (ts : List PlanTest) → has k (names_of test_name ts) ≡ true → accounts k ts ≡ true
unfolding accounts has
accounts-names k [] h = absurd cc
accounts-names k (t ∷ ts) h = elim (Bool-cases (str_eq t.name k)) [
  | inl same ↦ ground (arith, same)
  | inr apart ↦ ground (arith, accounts-names k ts (ground (arith, apart, h)))
]

module _ {A : Type 0} (entry : A → PlanTest) (k : String) where
  abbrev added : A → Building → Building
  added x b = if has (entry x).name b.seen then b else append_test (entry x) b

  added-keeps :
      (x : A) (b : Building) → accounts k b.tests ≡ true → accounts k (added x b).tests ≡ true
  added-keeps x b h = elim (Bool-cases (has (entry x).name b.seen)) [
    | inl seen ↦ rw (seen) h
    | inr fresh ↦ rw (fresh) (accounts-append k b.tests (entry x ∷ []) ∙ ground (arith, h))
  ]

  pub add_all-keeps :
      (xs : List A) (b : Building)
      → accounts k b.tests ≡ true
      → accounts k (add_all entry xs b).tests ≡ true
  unfolding add_all
  add_all-keeps [] b h = h
  add_all-keeps (x ∷ xs) b h = add_all-keeps xs (added x b) (added-keeps x b h)

has-added :
    (name : String) (t : PlanTest) (b : Building)
    → str_eq t.name name ≡ false
    → has name b.seen ≡ false
    → has name (if has t.name b.seen then b else append_test t b).seen ≡ false
unfolding has
has-added name t b apart h = ground (arith, apart, h, has-append name b.seen (t.name ∷ []))

-- An entry whose name is new, and that of no other entry of the loop, is made.
pub add_all-makes :
    (entry : String → PlanTest) (k x : String) (xs : List String) (b : Building)
    → ((y : String) → (entry y).name ≡ (entry x).name → y ≡ x)
    → has x xs ≡ true
    → has (entry x).name b.seen ≡ false
    → stands_for k (entry x) ≡ true
    → accounts k (add_all entry xs b).tests ≡ true
unfolding add_all has accounts
add_all-makes entry k x [] b own member fresh stands = absurd cc
add_all-makes entry k x (y ∷ ys) b own member fresh stands =
    elim (Bool-cases (str_eq (entry y).name (entry x).name)) [
      | inl same ↦
          let e : y ≡ x = own y ((eq_iff (entry y).name (entry x).name).0 same) in
          let fresh_y : has (entry y).name b.seen ≡ false =
            ap (λ i. has (entry i).name b.seen) e ∙ fresh in
          let stands_y : stands_for k (entry y) ≡ true =
            ap (λ i. stands_for k (entry i)) e ∙ stands in
          let at : added entry k y b ≡ append_test (entry y) b = rw (fresh_y) refl in
          add_all-keeps entry k ys (added entry k y b) (
            ap (λ c. accounts k c.tests) at
            ∙ (accounts-append k b.tests (entry y ∷ []) ∙ ground (arith, stands_y)))
      | inr apart ↦
          let other : str_eq y x ≡ false = elim (Bool-cases (str_eq y x)) [
            | inl one ↦ absurd (
                ground (
                  arith,
                  apart,
                  eq_iff (entry y).name (entry x).name,
                  ap (λ i. (entry i).name) ((eq_iff y x).0 one),
                ))
            | inr two ↦ two
          ] in
          add_all-makes entry k x ys (added entry k y b) own (ground (arith, other, member))
            (has-added (entry x).name (entry y) b apart fresh) stands
    ]
