-- ===== src/Star/Vacuity/Refs.antt =====
-- internal/star/vacuity.go: membership in the sets of interfaces.
use faultbox.Base.{
  ◌≡◌, refl, ap, ◌∙◌, true, not, ◌&&◌, ◌||◌, List, [], ◌∷◌, ◌++◌, String, str_eq, eq_iff, arith,
  and-both,
}
use faultbox.Star.Vacuity.{
  IfaceRef, same_ref, in_refs, add_ref, add_all, insert_sorted, missing_from,
}

in_refs-append :
    (q r : IfaceRef) (refs : List IfaceRef)
    → in_refs q (refs ++ r ∷ []) ≡ (same_ref r q || in_refs q refs)
unfolding in_refs
in_refs-append q r [] = refl
in_refs-append q r (x ∷ refs) = ground (arith, in_refs-append q r refs)

pub same_ref-in :
    (q r : IfaceRef) (refs : List IfaceRef) → same_ref r q ≡ true → in_refs r refs ≡ in_refs q refs
same_ref-in q r refs same =
    let both =
      and-both (str_eq r.service q.service) (str_eq r.interface_name q.interface_name) same in
    let make : String → String → IfaceRef =
      λ service name. record { service = service; interface_name = name } in
    ap (λ x. in_refs (make x r.interface_name) refs) ((eq_iff r.service q.service).0 both.0)
    ∙ ap (λ x. in_refs (make q.service x) refs)
        ((eq_iff r.interface_name q.interface_name).0 both.1)

pub in_refs-add_ref :
    (q r : IfaceRef) (refs : List IfaceRef)
    → in_refs q (add_ref r refs) ≡ (same_ref r q || in_refs q refs)
unfolding add_ref
in_refs-add_ref q r refs = ground (arith, in_refs-append q r refs, same_ref-in q r refs)

pub in_refs-add_all :
    (q : IfaceRef) (more refs : List IfaceRef)
    → in_refs q (add_all more refs) ≡ (in_refs q more || in_refs q refs)
unfolding add_all in_refs
in_refs-add_all q [] refs = refl
in_refs-add_all q (r ∷ more) refs =
    ground (arith, in_refs-add_all q more (add_ref r refs), in_refs-add_ref q r refs)

in_refs-insert_sorted :
    (q r : IfaceRef) (refs : List IfaceRef)
    → in_refs q (insert_sorted r refs) ≡ (same_ref r q || in_refs q refs)
unfolding insert_sorted in_refs
in_refs-insert_sorted q r [] = refl
in_refs-insert_sorted q r (x ∷ refs) = ground (arith, in_refs-insert_sorted q r refs)

pub in_refs-missing_from :
    (q : IfaceRef) (refs controls : List IfaceRef)
    → in_refs q (missing_from refs controls) ≡ (in_refs q refs && not (in_refs q controls))
unfolding missing_from in_refs
in_refs-missing_from q [] controls = refl
in_refs-missing_from q (r ∷ refs) controls = ground (
  arith,
  in_refs-missing_from q refs controls,
  in_refs-insert_sorted q r (missing_from refs controls),
  same_ref-in q r controls,
)
