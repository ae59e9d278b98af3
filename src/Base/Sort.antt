-- ===== src/Base/Sort.antt =====
-- What of the package sort orders names: the texts, or other values by a name, as an insertion
-- sort by the order of the texts. Values of one name may come in any order from sort.Slice, and
-- come here in the order in which they were.
use mathlib.Core.Path.{◌≡◌, refl, sym, ap, ◌∙◌}
use mathlib.Core.Bool.{Bool, true, false, ◌||◌}
use mathlib.Core.List.{List, [], ◌∷◌}
use Prim.Native.Nat.{Ordering}
use Prim.Native.String.{String, compare}
use native.Mathlib.Omega.{arith}
use faultbox.Base.Tests.{if◌then◌else◌}
use faultbox.Base.Text.{str_eq}
use faultbox.Base.Names.{has}

abbrev pub str_less : String → String → Bool
str_less s t = elim (compare s t) [ Ordering.lt ↦ true | _ ↦ false ]

unfoldable pub insert_by {ℓ} : {A : Type ℓ} → (A → String) → A → List A → List A
insert_by name x [] = x ∷ []
insert_by name x (y ∷ ys) =
    let rest = insert_by name x ys in if str_less (name y) (name x) then y ∷ rest else x ∷ y ∷ ys

-- `sort.Slice` by a name
unfoldable pub sort_by {ℓ} : {A : Type ℓ} → (A → String) → List A → List A
unfolding insert_by
sort_by name [] = []
sort_by name (x ∷ xs) = insert_by name x (sort_by name xs)

abbrev pub itself : String → String
itself s = s

-- `sort.Strings`
unfoldable pub sort_strings : List String → List String
unfolding sort_by
sort_strings xs = sort_by itself xs

abbrev pub names_of {ℓ} : {A : Type ℓ} → (A → String) → List A → List String
names_of name [] = []
names_of name (x ∷ xs) = name x ∷ names_of name xs

pub has-insert_by {ℓ} :
    {A : Type ℓ} (k : String) (f name : A → String) (x : A) (xs : List A)
    → has k (names_of f (insert_by name x xs)) ≡ (str_eq (f x) k || has k (names_of f xs))
unfolding has insert_by
has-insert_by k f name x [] = refl
has-insert_by k f name x (y ∷ ys) = ground (arith, has-insert_by k f name x ys)

pub has-sort_by {ℓ} :
    {A : Type ℓ} (k : String) (f name : A → String) (xs : List A)
    → has k (names_of f (sort_by name xs)) ≡ has k (names_of f xs)
unfolding has sort_by
has-sort_by k f name [] = refl
has-sort_by k f name (x ∷ xs) =
    has-insert_by k f name x (sort_by name xs)
    ∙ ap (λ b. str_eq (f x) k || b) (has-sort_by k f name xs)

pub names_of-itself : (xs : List String) → names_of itself xs ≡ xs
names_of-itself [] = refl
names_of-itself (x ∷ xs) = ap (λ ys. x ∷ ys) (names_of-itself xs)

pub has-sort_strings : (k : String) (xs : List String) → has k (sort_strings xs) ≡ has k xs
unfolding sort_strings
has-sort_strings k xs =
    ap (has k) (sym (names_of-itself (sort_by itself xs)))
    ∙ (has-sort_by k itself itself xs ∙ ap (has k) (names_of-itself xs))

pub has-names_of-sort_strings :
    (k : String) (f : String → String) (xs : List String)
    → has k (names_of f (sort_strings xs)) ≡ has k (names_of f xs)
unfolding sort_strings
has-names_of-sort_strings k f xs = has-sort_by k f itself xs
