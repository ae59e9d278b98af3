-- ===== src/Plan/Names.antt =====
-- internal/plan/enumerate.go (buildTests): the names of the tests in the plan.
use mathlib.Core.List.{append-nil, append_assoc}
use faultbox.Base.{
  ◌≡◌, refl, sym, ap, ◌∙◌, Bool, true, false, not, ◌&&◌, ◌||◌, Option, none, some, List, [], ◌∷◌,
  ◌++◌, String, str_eq, eq_iff, if◌then◌else◌, arith, Bool-cases, inl, inr,
}
use faultbox.Base.Names.{has, has-append}
use faultbox.Base.Sort.{
  insert_by, sort_by, sort_strings, names_of, itself, names_of-itself, has-sort_by, has-insert_by,
}
use faultbox.Star.ChooseAxes.{ChooseAxis}
use faultbox.Plan.{PlanTest, TestConfig, FaultScenario}
use faultbox.Plan.Build.{keep, apply_choose_axes}
use faultbox.Plan.Enumerate.{
  Building, append_test, configured, faulted, add_all, add_each, test_name, once,
}

-- Every name comes once.
unfoldable pub unique : List String → Bool
unique [] = true
unique (x ∷ xs) = not (has x xs) && unique xs

unique-insert_by :
    {A : Type 0} (name : A → String) (x : A) (xs : List A)
    → unique (names_of name (insert_by name x xs))
      ≡ (not (has (name x) (names_of name xs)) && unique (names_of name xs))
unfolding unique has insert_by
unique-insert_by name x [] = refl
unique-insert_by name x (y ∷ ys) = ground (
  arith,
  unique-insert_by name x ys,
  has-insert_by (name y) name name x ys,
  eq_iff (name x) (name y),
  eq_iff (name y) (name x),
)

pub unique-sort_by :
    {A : Type 0} (name : A → String) (xs : List A)
    → unique (names_of name (sort_by name xs)) ≡ unique (names_of name xs)
unfolding unique sort_by
unique-sort_by name [] = refl
unique-sort_by name (x ∷ xs) =
    unique-insert_by name x (sort_by name xs)
    ∙ ground (arith, unique-sort_by name xs, has-sort_by (name x) name name xs)

unique-last :
    (xs : List String) (x : String)
    → unique xs ≡ true
    → has x xs ≡ false
    → unique (xs ++ x ∷ []) ≡ true
unfolding unique has
unique-last [] x u fresh = refl
unique-last (y ∷ xs) x u fresh = ground (
  arith,
  u,
  fresh,
  unique-last xs x (ground (arith, u)) (ground (arith, fresh)),
  has-append y xs (x ∷ []),
  eq_iff x y,
  eq_iff y x,
)

-- What is seen are the names of the tests, each of them once.
pub record Sound (b : Building) : Type 0 where
  pub seen_names : b.seen ≡ names_of test_name b.tests
  pub unique_names : unique b.seen ≡ true

names_of-last :
    (ts : List PlanTest) (t : PlanTest)
    → names_of test_name (ts ++ t ∷ []) ≡ names_of test_name ts ++ t.name ∷ []
names_of-last [] t = refl
names_of-last (x ∷ ts) t = ap (λ ns. x.name ∷ ns) (names_of-last ts t)

append_test-Sound :
    (t : PlanTest) (b : Building) → has t.name b.seen ≡ false → Sound b → Sound (append_test t b)
append_test-Sound t b fresh h = record {
  seen_names = ap (λ ns. ns ++ t.name ∷ []) h.seen_names ∙ sym (names_of-last b.tests t);
  unique_names = unique-last b.seen t.name h.unique_names fresh;
}

module _ {A : Type 0} (entry : A → PlanTest) where
  abbrev pub entry_name : A → String
  entry_name x = (entry x).name

  add-Sound :
      (x : A) (b : Building)
      → Sound b
      → Sound (if has (entry x).name b.seen then b else append_test (entry x) b)
  add-Sound x b h = elim (Bool-cases (has (entry x).name b.seen)) [
    | inl seen ↦ rw (seen) h
    | inr fresh ↦ rw (fresh) (append_test-Sound (entry x) b fresh h)
  ]

  pub add_all-Sound : (xs : List A) (b : Building) → Sound b → Sound (add_all entry xs b)
  unfolding add_all
  add_all-Sound [] b h = h
  add_all-Sound (x ∷ xs) b h =
      add_all-Sound xs (if has (entry x).name b.seen then b else append_test (entry x) b)
        (add-Sound x b h)

  has-add :
      (k : String) (x : A) (b : Building)
      → has k (if has (entry x).name b.seen then b else append_test (entry x) b).seen
        ≡ (str_eq (entry x).name k || has k b.seen)
  unfolding has
  has-add k x b = elim (Bool-cases (str_eq (entry x).name k)) [
    | inl same ↦ ground (
      arith,
      same,
      ap (λ i. has i b.seen) ((eq_iff (entry x).name k).0 same),
      has-append k b.seen ((entry x).name ∷ []),
    )
    | inr apart ↦ ground (arith, apart, has-append k b.seen ((entry x).name ∷ []))
  ]

  pub has-add_all :
      (k : String) (xs : List A) (b : Building)
      → has k (add_all entry xs b).seen ≡ (has k b.seen || has k (names_of entry_name xs))
  unfolding add_all has
  has-add_all k [] b = ground arith
  has-add_all k (x ∷ xs) b = ground (
    arith,
    has-add k x b,
    has-add_all k xs (if has (entry x).name b.seen then b else append_test (entry x) b),
  )

  pub add_each-Sound :
      (xs : List A) (b : Building)
      → b.seen ≡ names_of test_name b.tests
      → unique (b.seen ++ names_of entry_name xs) ≡ true
      → Sound (add_each entry xs b)
  unfolding add_each
  add_each-Sound [] b same u = record {
    seen_names = same;
    unique_names = ap unique (sym (append-nil b.seen)) ∙ u;
  }
  add_each-Sound (x ∷ xs) b same u =
      add_each-Sound xs (append_test (entry x) b)
        (ap (λ ns. ns ++ (entry x).name ∷ []) same ∙ sym (names_of-last b.tests (entry x)))
        (ap unique (append_assoc b.seen ((entry x).name ∷ []) (names_of entry_name xs)) ∙ u)

  pub has-add_each :
      (k : String) (xs : List A) (b : Building)
      → has k (add_each entry xs b).seen ≡ (has k b.seen || has k (names_of entry_name xs))
  unfolding add_each has
  has-add_each k [] b = ground arith
  has-add_each k (x ∷ xs) b = ground (
    arith,
    has-append k b.seen ((entry x).name ∷ []),
    has-add_each k xs (append_test (entry x) b),
  )

pub name-configured : (t : PlanTest) (o : Option TestConfig) → (configured t o).name ≡ t.name
name-configured t none = refl
name-configured t (some cfg) = refl

pub name-faulted : (t : PlanTest) (o : Option FaultScenario) → (faulted t o).name ≡ t.name
name-faulted t none = refl
name-faulted t (some fs) = refl

pub name-apply_choose_axes :
    (t : PlanTest) (axes : List ChooseAxis) → (apply_choose_axes t axes).name ≡ t.name
unfolding apply_choose_axes
name-apply_choose_axes t [] = refl
name-apply_choose_axes t (a ∷ axes) = refl

pub names_of-same :
    (f g : String → String) (xs : List String)
    → ((x : String) → f x ≡ g x)
    → names_of f xs ≡ names_of g xs
names_of-same f g [] h = refl
names_of-same f g (x ∷ xs) h =
    let first : f x ≡ g x = h x in
    let rest : names_of f xs ≡ names_of g xs = names_of-same f g xs h in cc

pub has-keep :
    (k : String) (f : String → Bool) (xs : List String) → has k (keep f xs) ≡ (has k xs && f k)
unfolding has
has-keep k f [] = refl
has-keep k f (x ∷ xs) = elim (Bool-cases (str_eq x k)) [
  | inl same ↦
      let e : f x ≡ f k = ap f ((eq_iff x k).0 same) in ground (arith, same, e, has-keep k f xs)
  | inr apart ↦ ground (arith, apart, has-keep k f xs)
]

pub unique-keep :
    (f : String → Bool) (xs : List String) → unique xs ≡ true → unique (keep f xs) ≡ true
unfolding unique
unique-keep f [] h = refl
unique-keep f (x ∷ xs) h = ground (arith, h, has-keep x f xs, unique-keep f xs (ground (arith, h)))

pub unique-sort_strings : (xs : List String) → unique (sort_strings xs) ≡ unique xs
unfolding sort_strings
unique-sort_strings xs =
    ap unique (sym (names_of-itself (sort_by itself xs)))
    ∙ (unique-sort_by itself xs ∙ ap unique (names_of-itself xs))

pub has-names_of :
    (x : String) (f : String → String) (xs : List String)
    → has x xs ≡ true
    → has (f x) (names_of f xs) ≡ true
unfolding has
has-names_of x f [] h = absurd cc
has-names_of x f (y ∷ ys) h = elim (Bool-cases (str_eq y x)) [
  | inl same ↦ ground (arith, eq_iff (f y) (f x), ap f ((eq_iff y x).0 same))
  | inr apart ↦ ground (arith, has-names_of x f ys (ground (arith, apart, h)))
]

pub has-once :
    (k : String) (f : String → String) (xs : List String)
    → has k (names_of f (once xs)) ≡ has k (names_of f xs)
unfolding has once
has-once k f [] = refl
has-once k f (x ∷ xs) = elim (Bool-cases (has x (once xs))) [
  | inl again ↦ elim (Bool-cases (str_eq (f x) k)) [
    | inl same ↦
        let hit : has k (names_of f (once xs)) ≡ true =
          ap (λ i. has i (names_of f (once xs))) (sym ((eq_iff (f x) k).0 same))
          ∙ has-names_of x f (once xs) again in
        ground (arith, again, same, hit)
    | inr apart ↦ ground (arith, again, apart, has-once k f xs)
  ]
  | inr fresh ↦ ground (arith, fresh, has-once k f xs)
]
