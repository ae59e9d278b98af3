-- ===== src/Lock/Tests.antt =====
-- Tests of internal/lock/lock.go: a lock of two images and a binary, against what a run observed.
use faultbox.Base.{
  ℕ, ◌+◌, ◌≡◌, refl, true, none, some, [], ◌∷◌, ◌++◌, String, Bytes, codes, ◌↔◌, has_prefix,
}
use faultbox.Base.Dict.{Dict, lookup, insert}
use faultbox.Base.Sort.{sort_strings, sort_by, insert_by}
use faultbox.Lock.{
  Lock, Drift, empty, not_in, changes, put_all, compare_images, compare_binaries, merge_binaries,
  read, opened, missing_version, newer_version, no_lock,
}
use faultbox.Lock.Compare.{merge_binaries-empty}
use faultbox.Lock.Format.{
  rows, width, line_start, padded, format, digest_for_display, short_digest, trim_prefix,
}

abbrev pinned : Lock
pinned = record {
  schema = 1;
  images = ("redis:7", "sha256:aa") ∷ ("mysql:8", "sha256:bb") ∷ [];
  binaries = ("bin/api", "sha256:cc") ∷ [];
}

abbrev pulled : Dict String
pulled = ("mysql:8", "sha256:dd") ∷ ("nginx:1", "sha256:ee") ∷ []

abbrev report : Drift
report = merge_binaries (compare_binaries (some pinned) []) (compare_images (some pinned) pulled)

report-names :
    (report.new_images ≡ "nginx:1" ∷ [])
    × (report.removed_images ≡ "redis:7" ∷ [])
    × (report.changed_images
        ≡ ("mysql:8", record { before = "sha256:bb"; after = "sha256:dd" }) ∷ [])
    × (report.removed_binaries ≡ "bin/api" ∷ [])
unfolding merge_binaries compare_images compare_binaries not_in changes put_all sort_strings sort_by
    insert_by lookup insert
report-names = (refl, refl, refl, refl)

merge_binaries-empty_example : (empty report ≡ true) ↔ (
    ((tag : String) → lookup tag pinned.images ≡ lookup tag pulled)
    × ((path : String) → lookup path pinned.binaries ≡ lookup path []))
merge_binaries-empty_example = merge_binaries-empty pinned pulled []

digests :
    (digest_for_display (codes "sha256:0123456789abcdef") ≡ codes "sha256:0123456789ab")
    × (digest_for_display [] ≡ codes "<unknown>")
unfolding digest_for_display short_digest trim_prefix has_prefix
digests = (refl, refl)

-- A number below ten.
abbrev digit : ℕ → Bytes
digit n = (48 + n) ∷ []

one_row :
    format digit (compare_images (some pinned) (("redis:7", "sha256:aa") ∷ []))
    ≡ codes "drift detected (1 entries):"
      ++ (10 ∷ codes "  image  mysql:8   locked sha256:bb   current <not found locally>"
          ++ (10 ∷ []))
unfolding format rows width line_start padded empty compare_images not_in changes sort_strings
    sort_by insert_by lookup insert digest_for_display short_digest trim_prefix has_prefix
one_row = refl

gates :
    (read none ≡ no_lock)
    × (read (some pinned) ≡ opened pinned)
    × (read (some (record pinned { schema = 0 })) ≡ missing_version)
    × (read (some (record pinned { schema = 2 })) ≡ newer_version 2)
unfolding read
gates = (refl, refl, refl, refl)
