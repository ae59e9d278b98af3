-- ===== src/Engine/Fault/Errno.antt =====
-- internal/engine/fault.go: the names of the errors (errnoMap, errnoByName, errnoName).
use faultbox.Base.{
  ℕ, ◌≡◌, refl, sym, ap, ◌∙◌, Bool, true, false, not, ◌&&◌, ◌||◌, Option, none, some, List, [], ◌∷◌,
  String, str_eq, eq_iff, Bytes, codes, ◌==◌, if◌then◌else◌, arith, Bool-cases, and-both, not-true,
  inl, inr,
}
use mathlib.Core.Path.{subst}
use faultbox.Base.Names.{has}
use faultbox.Base.Split.{bytes_eq, upper, lower, lacks, no_space, bytes_eq-path}
use faultbox.Engine.Fault.{FaultText, errno_names}
use faultbox.Engine.Fault.Parse.{find_errno, errno_by_name, errno_name}
use faultbox.Engine.Fault.Segments.{plain}

find_known : Bytes → List String → Option String
find_known name [] = none
find_known name (known ∷ more) =
    let rest = find_known name more in if bytes_eq (codes known) name then some known else rest

abbrev found_is : String → Option String → Bool
found_is known none = false
found_is known (some other) = str_eq other known

-- What the parser needs of a name: it is spelled in capitals, it is not the word `delay`, nothing
-- in it separates segments, and the table finds it.
good_name : String → Bool
unfolding find_known plain lacks no_space
good_name known =
    bytes_eq (upper (codes known)) (codes known)
    && (plain (codes known)
        && (not (bytes_eq (lower (codes known)) (codes "delay"))
            && found_is known (find_known (codes known) errno_names)))

all_good : List String → Bool
unfolding good_name
all_good [] = true
all_good (known ∷ more) = good_name known && all_good more

errno_names-all_good : all_good errno_names ≡ true
unfolding all_good good_name find_known plain lacks no_space
errno_names-all_good = refl

all_good-at :
    (names : List String) (known : String)
    → all_good names ≡ true
    → has known names ≡ true
    → good_name known ≡ true
unfolding all_good has
all_good-at [] known h member = absurd cc
all_good-at (x ∷ names) known h member =
    let both = and-both (good_name x) (all_good names) h in
    elim (Bool-cases (str_eq x known)) [
      | inl same ↦ ap good_name (sym ((eq_iff x known).0 same)) ∙ both.0
      | inr apart ↦
          let later : has known names ≡ true = rw (apart) at member in
          all_good-at names known both.1 later
    ]

module _ (T : FaultText) where
  unfoldable pub numbered : ℕ → List String → Bool
  numbered e [] = false
  numbered e (known ∷ more) = T.errno_number known == e || numbered e more

  abbrev number : Option String → Option ℕ
  number none = none
  number (some known) = some (T.errno_number known)

  find_errno-known :
      (name : Bytes) (names : List String)
      → find_errno T name names ≡ number (find_known name names)
  unfolding find_errno find_known
  find_errno-known name [] = refl
  find_errno-known name (known ∷ names) = ground (arith, find_errno-known name names)

  errno_name-numbered :
      (e : ℕ) (names : List String)
      → numbered e names ≡ true
      → ((known : String) × (has known names ≡ true)
          × (T.errno_number known ≡ e)
          × (errno_name T e names ≡ codes known))
  unfolding numbered errno_name has
  errno_name-numbered e [] h = absurd cc
  errno_name-numbered e (known ∷ names) h = elim (Bool-cases (T.errno_number known == e)) [
    | inl same ↦ (known, ground (arith, eq_iff known known), ground (arith, same), rw (same) refl)
    | inr apart ↦
        let rest = errno_name-numbered e names (ground (arith, apart, h)) in
        (rest.0, ground (arith, rest.1), rest.2, rw (apart) rest.3)
  ]

  found_is-number :
      (known : String) (found : Option String)
      → found_is known found ≡ true
      → number found ≡ some (T.errno_number known)
  found_is-number known none h = absurd cc
  found_is-number known (some other) h =
      ap (λ k. some (T.errno_number k)) ((eq_iff other known).0 h)

  -- A name of the table is what the parser needs, and stands for its number.
  abbrev pub ReadBack : Bytes → ℕ → Type 0
  ReadBack name e =
      (plain name ≡ true)
      × (bytes_eq (lower name) (codes "delay") ≡ false)
      × (errno_by_name T name ≡ some e)

  good_name-ReadBack :
      (known : String) → good_name known ≡ true → ReadBack (codes known) (T.errno_number known)
  unfolding good_name errno_by_name
  good_name-ReadBack known h =
      let name = codes known in
      let one = and-both (bytes_eq (upper name) name) _ h in
      let two = and-both (plain name) _ one.1 in
      let three = and-both (not (bytes_eq (lower name) (codes "delay"))) _ two.1 in
      (
        two.0,
        not-true (bytes_eq (lower name) (codes "delay")) three.0,
        ap (λ s. find_errno T s errno_names) (bytes_eq-path (upper name) name one.0)
            ∙ find_errno-known name errno_names
            ∙ found_is-number known (find_known name errno_names) three.1,
      )

  pub errno_name-ReadBack :
      (e : ℕ) → numbered e errno_names ≡ true → ReadBack (errno_name T e errno_names) e
  errno_name-ReadBack e h =
      let found = errno_name-numbered e errno_names h in
      let back =
        good_name-ReadBack found.0 (all_good-at errno_names found.0 errno_names-all_good found.1) in
      let at_name : ReadBack (errno_name T e errno_names) (T.errno_number found.0) =
        subst (λ s. ReadBack s (T.errno_number found.0)) (sym found.3) back in
      subst (λ n. ReadBack (errno_name T e errno_names) n) found.2 at_name
