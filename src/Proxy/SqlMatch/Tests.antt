-- ===== src/Proxy/SqlMatch/Tests.antt =====
-- Tests of internal/proxy/sqlmatch/sqlmatch.go: the query of its package comment, and a literal
-- with two blanks in it.
use faultbox.Base.{◌≡◌, refl, ◌∷◌, ◌++◌, codes}
use faultbox.Proxy.SqlMatch.{canonicalize, scan, round_of, plain_round, strip, join_fields}
use faultbox.Proxy.SqlMatch.Dialect.{all_digits, mode_after, canonicalize-placeholder}

folded :
    canonicalize (codes " Select id FROM t WHERE id<=$12; ")
    ≡ codes "select id from t where id <= $?"
unfolding canonicalize scan round_of plain_round strip join_fields
folded = refl

blanks_in_literal : canonicalize (codes "name = 'a  b'") ≡ codes "name = 'a b'"
unfolding canonicalize scan round_of plain_round strip join_fields
blanks_in_literal = refl

normal_form_again : canonicalize (canonicalize (codes "id=?")) ≡ codes "id = $$?"
unfolding canonicalize scan round_of plain_round strip join_fields
normal_form_again = refl

canonicalize-placeholder_example :
    canonicalize (codes "id=" ++ 36 ∷ 49 ∷ (codes "2" ++ codes " and x"))
    ≡ canonicalize (codes "id=" ++ 63 ∷ codes " and x")
canonicalize-placeholder_example =
    canonicalize-placeholder (codes "id=") 49 (codes "2") (codes " and x") refl
      (unfold all_digits in refl) refl (unfold mode_after round_of plain_round in refl)
      (unfold strip in refl) (unfold strip in refl)
