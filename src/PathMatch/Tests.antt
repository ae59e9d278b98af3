-- ===== src/PathMatch/Tests.antt =====
-- Runs of the matcher, and the theorems at concrete patterns.
use faultbox.Base.{◌≡◌, refl, ◌↔◌, true, false, [], ◌∷◌, All, codes, arith}
use faultbox.PathMatch.{match, match_any, some_match}
use faultbox.PathMatch.Relation.{IsPlain, Matches}
use faultbox.PathMatch.Decides.{match_iff}

star_stays_in_segment : match (codes "/data/*") (codes "/data/a/b") ≡ false
unfolding match
star_stays_in_segment = refl

deep_in_the_middle : match (codes "a/**/b") (codes "a/b") ≡ true
unfolding match
deep_in_the_middle = refl

negated_range : match (codes "x[!a-c]?") (codes "xdz") ≡ true
unfolding match
negated_range = refl

one_of_two : match_any (codes "*.log" ∷ codes "/tmp/**" ∷ []) (codes "/tmp/x/y") ≡ true
unfolding match_any some_match match
one_of_two = refl

match_iff_example :
    (match (codes "/data/*") (codes "/data/wal") ≡ true)
    ↔ Matches (codes "/data/*") (codes "/data/wal")
match_iff_example = match_iff (codes "/data/*") (codes "/data/wal") (λ e. cc)

data-IsPlain : All IsPlain (codes "/data")
data-IsPlain = omega arith
