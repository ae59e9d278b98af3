-- ===== src/Lock.antt =====
-- internal/lock/lock.go: the lock file, which pins images and binaries by their digests, and its
-- drift from what a run observes. A range over a map is one over its keys.
pub mod Compare
pub mod Format
mod Tests
use faultbox.Base.{
  ℕ, zero, suc, Bool, true, false, not, ◌&&◌, Option, none, some, List, [], ◌∷◌, ◌++◌, String,
  str_eq, ltb, if◌then◌else◌,
}
use faultbox.Base.Dict.{Dict, lookup, insert}
use faultbox.Base.Names.{keys}
use faultbox.Base.Sort.{sort_strings}

abbrev pub schema_version : ℕ
schema_version = 1

pub record Lock : Type 0 where
  pub schema : ℕ
  pub images : Dict String
  pub binaries : Dict String

pub record Change : Type 0 where
  pub before : String
  pub after : String

pub record Drift : Type 0 where
  pub new_images : List String
  pub removed_images : List String
  pub changed_images : Dict Change
  pub new_binaries : List String
  pub removed_binaries : List String
  pub changed_binaries : Dict Change
  pub observed : Dict String
  pub locked : Dict String
  pub observed_binaries : Dict String
  pub locked_binaries : Dict String

abbrev pub no_entries {ℓ} : {A : Type ℓ} → List A → Bool
no_entries [] = true
no_entries (x ∷ xs) = false

unfoldable pub empty : Drift → Bool
empty d =
    no_entries d.new_images
    && no_entries d.removed_images
    && no_entries d.changed_images
    && no_entries d.new_binaries
    && no_entries d.removed_binaries
    && no_entries d.changed_binaries

abbrev pub absent : Option String → Bool
absent none = true
absent (some v) = false

-- The names that a map does not hold.
unfoldable pub not_in : Dict String → List String → List String
not_in m [] = []
not_in m (k ∷ ks) = let rest = not_in m ks in if absent (lookup k m) then k ∷ rest else rest

abbrev pub change_of : Option String → Option String → Option Change
change_of none got = none
change_of (some want) none = none
change_of (some want) (some got) =
    if str_eq want got then none else some (record { before = want; after = got })

abbrev pub put_change : String → Option Change → Dict Change → Dict Change
put_change k none changed = changed
put_change k (some c) changed = insert k c changed

unfoldable pub changes : Dict String → Dict String → List String → Dict Change
changes locked observed [] = []
changes locked observed (k ∷ ks) =
    put_change k (change_of (lookup k locked) (lookup k observed)) (changes locked observed ks)

abbrev pub no_drift : Drift
no_drift = record {
  new_images = [];
  removed_images = [];
  changed_images = [];
  new_binaries = [];
  removed_binaries = [];
  changed_binaries = [];
  observed = [];
  locked = [];
  observed_binaries = [];
  locked_binaries = [];
}

-- Without a lock, everything that is observed is new.
unfoldable pub compare_images : Option Lock → Dict String → Drift
unfolding not_in changes
compare_images none observed = record no_drift {
  observed = observed;
  new_images = sort_strings (keys observed);
}
compare_images (some lk) observed = record no_drift {
  observed = observed;
  locked = lk.images;
  new_images = sort_strings (not_in lk.images (keys observed));
  changed_images = changes lk.images observed (keys observed);
  removed_images = sort_strings (not_in observed (keys lk.images));
}

unfoldable pub compare_binaries : Option Lock → Dict String → Drift
unfolding not_in changes
compare_binaries none observed = record no_drift {
  observed_binaries = observed;
  new_binaries = sort_strings (keys observed);
}
compare_binaries (some lk) observed = record no_drift {
  observed_binaries = observed;
  locked_binaries = lk.binaries;
  new_binaries = sort_strings (not_in lk.binaries (keys observed));
  changed_binaries = changes lk.binaries observed (keys observed);
  removed_binaries = sort_strings (not_in observed (keys lk.binaries));
}

unfoldable pub put_all {ℓ} : {V : Type ℓ} → Dict V → Dict V → Dict V
put_all [] into = into
put_all ((k, v) ∷ more) into = put_all more (insert k v into)

unfoldable pub merge_binaries : Drift → Drift → Drift
unfolding put_all
merge_binaries b d = record d {
  new_binaries = d.new_binaries ++ b.new_binaries;
  removed_binaries = d.removed_binaries ++ b.removed_binaries;
  changed_binaries = put_all b.changed_binaries d.changed_binaries;
  observed_binaries = put_all b.observed_binaries d.observed_binaries;
  locked_binaries = put_all b.locked_binaries d.locked_binaries;
}

pub data ReadResult : Type 0 where
  no_lock : ReadResult
  opened : Lock → ReadResult
  missing_version : ReadResult
  newer_version : ℕ → ReadResult

abbrev check_version : ℕ → Lock → ReadResult
check_version zero lk = missing_version
check_version (suc n) lk = if ltb schema_version (suc n) then newer_version (suc n) else opened lk

-- The gate of `Read`, on what the file holds, if there is one.
unfoldable pub read : Option Lock → ReadResult
read none = no_lock
read (some lk) = check_version lk.schema lk
