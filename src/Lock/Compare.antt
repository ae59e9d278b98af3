-- ===== src/Lock/Compare.antt =====
-- internal/lock/lock.go (CompareImages, CompareBinaries, MergeBinaries): what counts as drift.
use faultbox.Base.{
  ◌≡◌, refl, sym, ap, ◌∙◌, Bool, true, false, not, ◌&&◌, ◌||◌, Option, none, some, List, [], ◌∷◌,
  String, str_eq, eq_iff, eq_refl, if◌then◌else◌, arith, Bool-cases, inl, inr, ◌↔◌,
}
use faultbox.Base.Dict.{Dict, lookup, insert, lookup-insert}
use faultbox.Base.Names.{has, keys}
use faultbox.Base.Sort.{sort_strings, has-sort_strings}
use faultbox.Lock.{
  Lock, Change, no_entries, empty, absent, not_in, change_of, put_change, changes, compare_images,
  compare_binaries, merge_binaries, put_all,
}

has-not_in :
    (q : String) (m : Dict String) (ks : List String)
    → has q (not_in m ks) ≡ (has q ks && absent (lookup q m))
unfolding has not_in
has-not_in q m [] = refl
has-not_in q m (k ∷ ks) = elim (Bool-cases (str_eq k q)) [
  | inl same ↦
      let e : absent (lookup k m) ≡ absent (lookup q m) =
        ap (λ i. absent (lookup i m)) ((eq_iff k q).0 same) in
      ground (arith, same, e, has-not_in q m ks)
  | inr apart ↦ ground (arith, apart, has-not_in q m ks)
]

lookup-put_change :
    (q k : String) (o : Option Change) (changed : Dict Change) (b : Bool) (target : Option Change)
    → (str_eq k q ≡ true → o ≡ target)
    → lookup q changed ≡ (if b then target else none)
    → lookup q (put_change k o changed) ≡ (if str_eq k q || b then target else none)
lookup-put_change q k none changed b target own h = elim (Bool-cases (str_eq k q)) [
  | inl same ↦ ground (arith, same, own same, h)
  | inr apart ↦ ground (arith, apart, h)
]
lookup-put_change q k (some c) changed b target own h = elim (Bool-cases (str_eq k q)) [
  | inl same ↦ ground (arith, same, own same, lookup-insert k q c changed)
  | inr apart ↦ ground (arith, apart, h, lookup-insert k q c changed)
]

lookup-changes :
    (q : String) (locked observed : Dict String) (ks : List String)
    → lookup q (changes locked observed ks)
      ≡ (if has q ks then change_of (lookup q locked) (lookup q observed) else none)
unfolding has changes lookup
lookup-changes q locked observed [] = refl
lookup-changes q locked observed (k ∷ ks) =
    lookup-put_change q k (change_of (lookup k locked) (lookup k observed))
      (changes locked observed ks) (has q ks) (change_of (lookup q locked) (lookup q observed))
      (λ same. ap (λ i. change_of (lookup i locked) (lookup i observed)) ((eq_iff k q).0 same))
      (lookup-changes q locked observed ks)

has-keys : (q : String) (m : Dict String) → has q (keys m) ≡ not (absent (lookup q m))
unfolding has lookup
has-keys q [] = refl
has-keys q ((k, v) ∷ m) = ground (arith, has-keys q m)

-- What a drift says of one name, for its digests in the lock and in what was observed.
abbrev pub is_new : Option String → Option String → Bool
is_new want got = absent want && not (absent got)

abbrev pub is_removed : Option String → Option String → Bool
is_removed want got = not (absent want) && absent got

change_of-guarded :
    (want got : Option String)
    → (if not (absent got) then change_of want got else none) ≡ change_of want got
change_of-guarded none none = refl
change_of-guarded none (some g) = refl
change_of-guarded (some w) none = refl
change_of-guarded (some w) (some g) = refl

abbrev Classified : Dict String → Dict String → String → Type 0
Classified locked observed k =
    let want = lookup k locked in
    let got = lookup k observed in
    (has k (sort_strings (not_in locked (keys observed))) ≡ is_new want got)
    × (has k (sort_strings (not_in observed (keys locked))) ≡ is_removed want got)
    × (lookup k (changes locked observed (keys observed)) ≡ change_of want got)

classifies : (locked observed : Dict String) (k : String) → Classified locked observed k
classifies locked observed k =
    let want = lookup k locked in
    let got = lookup k observed in
    (
      has-sort_strings k (not_in locked (keys observed))
          ∙ (has-not_in k locked (keys observed) ∙ ground (arith, has-keys k observed)),
      has-sort_strings k (not_in observed (keys locked))
          ∙ (has-not_in k observed (keys locked) ∙ ground (arith, has-keys k locked)),
      lookup-changes k locked observed (keys observed)
          ∙ (ap (λ b. if b then change_of want got else none) (has-keys k observed)
              ∙ change_of-guarded want got),
    )

-- Compared with a lock, every image is classified by its two digests alone: it is new if only
-- what was observed has it, removed if only the lock has it, changed, from the one digest to the
-- other, if both have it with different digests, and otherwise none of these.
pub compare_images-classifies :
    (lk : Lock) (observed : Dict String) (tag : String)
    → let d = compare_images (some lk) observed in
      let want = lookup tag lk.images in
      let got = lookup tag observed in
      (has tag d.new_images ≡ is_new want got)
      × (has tag d.removed_images ≡ is_removed want got)
      × (lookup tag d.changed_images ≡ change_of want got)
unfolding compare_images
compare_images-classifies lk observed tag = classifies lk.images observed tag

no_entries-has : (xs : List String) → ((k : String) → has k xs ≡ false) → no_entries xs ≡ true
unfolding has
no_entries-has [] h = refl
no_entries-has (x ∷ xs) h = absurd (ground (arith, h x, eq_refl x))

has-no_entries : (k : String) (xs : List String) → no_entries xs ≡ true → has k xs ≡ false
unfolding has
has-no_entries k [] h = refl
has-no_entries k (x ∷ xs) h = absurd cc

no_entries-lookup :
    (changed : Dict Change) → ((k : String) → lookup k changed ≡ none) → no_entries changed ≡ true
unfolding lookup
no_entries-lookup [] h = refl
no_entries-lookup ((k, c) ∷ changed) h = absurd (ground (arith, h k, eq_refl k))

lookup-no_entries :
    (k : String) (changed : Dict Change) → no_entries changed ≡ true → lookup k changed ≡ none
unfolding lookup
lookup-no_entries k [] h = refl
lookup-no_entries k (x ∷ xs) h = absurd cc

same_digest :
    (want got : Option String)
    → is_new want got ≡ false
    → is_removed want got ≡ false
    → change_of want got ≡ none
    → want ≡ got
same_digest none none n r c = refl
same_digest none (some g) n r c = absurd cc
same_digest (some w) none n r c = absurd cc
same_digest (some w) (some g) n r c = ground (arith, eq_iff w g, c)

digest_same :
    (want got : Option String)
    → want ≡ got
    → (is_new want got ≡ false) × (is_removed want got ≡ false) × (change_of want got ≡ none)
digest_same none none e = (refl, refl, refl)
digest_same none (some g) e = absurd cc
digest_same (some w) none e = absurd cc
digest_same (some w) (some g) e = (refl, refl, ground (arith, eq_iff w g, e))

-- The three lists of a comparison of two maps are empty.
abbrev AllEmpty : Dict String → Dict String → Type 0
AllEmpty locked observed =
    (no_entries (sort_strings (not_in locked (keys observed))) ≡ true)
    × (no_entries (sort_strings (not_in observed (keys locked))) ≡ true)
    × (no_entries (changes locked observed (keys observed)) ≡ true)

AllEmpty-lookup :
    (locked observed : Dict String)
    → AllEmpty locked observed ↔ ((k : String) → lookup k locked ≡ lookup k observed)
AllEmpty-lookup locked observed = (
  λ h k.
      let c = classifies locked observed k in
      same_digest (lookup k locked) (lookup k observed)
        (sym c.0 ∙ has-no_entries k (sort_strings (not_in locked (keys observed))) h.0)
        (sym c.1 ∙ has-no_entries k (sort_strings (not_in observed (keys locked))) h.1)
        (sym c.2 ∙ lookup-no_entries k (changes locked observed (keys observed)) h.2),
  λ h. (
    no_entries-has (sort_strings (not_in locked (keys observed))) (λ k.
        (classifies locked observed k).0
        ∙ (digest_same (lookup k locked) (lookup k observed) (h k)).0),
    no_entries-has (sort_strings (not_in observed (keys locked))) (λ k.
        (classifies locked observed k).1
        ∙ (digest_same (lookup k locked) (lookup k observed) (h k)).1),
    no_entries-lookup (changes locked observed (keys observed)) (λ k.
        (classifies locked observed k).2
        ∙ (digest_same (lookup k locked) (lookup k observed) (h k)).2),
  ),
)

no_entries-insert :
    {V : Type 0} (k : String) (v : V) (m : Dict V) → no_entries (insert k v m) ≡ false
unfolding insert
no_entries-insert k v [] = refl
no_entries-insert k v ((j, w) ∷ m) = ground arith

no_entries-put_all :
    {V : Type 0} (more into : Dict V)
    → no_entries (put_all more into) ≡ (no_entries more && no_entries into)
unfolding put_all
no_entries-put_all [] into = refl
no_entries-put_all ((k, v) ∷ more) into =
    no_entries-put_all more (insert k v into) ∙ ground (arith, no_entries-insert k v into)

-- The report of a lock, with its images and its binaries, is empty exactly if the lock and what
-- was observed hold the same digest for every image and for every binary.
pub merge_binaries-empty :
    (lk : Lock) (images binaries : Dict String)
    → let report =
        merge_binaries (compare_binaries (some lk) binaries) (compare_images (some lk) images) in
      (empty report ≡ true) ↔ (
        ((tag : String) → lookup tag lk.images ≡ lookup tag images)
        × ((path : String) → lookup path lk.binaries ≡ lookup path binaries))
unfolding empty merge_binaries compare_images compare_binaries
merge_binaries-empty lk images binaries =
    let i = AllEmpty-lookup lk.images images in
    let b = AllEmpty-lookup lk.binaries binaries in
    let merged = no_entries-put_all (changes lk.binaries binaries (keys binaries)) [] in
    (
      λ h.
          let six : AllEmpty lk.images images × AllEmpty lk.binaries binaries = (
            (ground (arith, h), ground (arith, h), ground (arith, h)),
            (ground (arith, h), ground (arith, h), ground (arith, h, merged)),
          ) in
          (i.0 six.0, b.0 six.1),
      λ h.
          let at_i : AllEmpty lk.images images = i.1 h.0 in
          let at_b : AllEmpty lk.binaries binaries = b.1 h.1 in
          ground (arith, at_i.0, at_i.1, at_i.2, at_b.0, at_b.1, at_b.2, merged),
    )
