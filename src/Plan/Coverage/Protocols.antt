-- ===== src/Plan/Coverage/Protocols.antt =====
-- internal/plan/coverage.go (WithCoverage): which protocols are covered, and how many edges are not.
use faultbox.Base.{
  ◌≡◌, refl, ap, ◌∙◌, Bool, true, false, not, ◌&&◌, ◌||◌, List, [], ◌∷◌, String, str_eq, eq_iff,
  if◌then◌else◌, arith, Bool-cases, inl, inr,
}
use faultbox.Base.Names.{has, has-append}
use faultbox.Base.Sort.{has-sort_strings}
use faultbox.Plan.{FaultScenario}
use faultbox.Plan.Coverage.{
  Edge, PlanEdge, join_tests_to_target, plan_edges, protocols_of, put_name, split_protocols,
  is_covered, any_edge, with_coverage,
}

-- Some edge of the protocol, which has a name, satisfies the test.
unfoldable pub some_edge : String → (PlanEdge → Bool) → List PlanEdge → Bool
some_edge p picked [] = false
some_edge p picked (e ∷ edges) =
    (not (str_eq e.protocol "") && picked e && str_eq e.protocol p) || some_edge p picked edges

has-put_name :
    (p k : String) (names : List String) → has p (put_name k names) ≡ (str_eq k p || has p names)
unfolding has
has-put_name p k names = elim (Bool-cases (str_eq k p)) [
  | inl same ↦
      let e : has k names ≡ has p names = ap (λ i. has i names) ((eq_iff k p).0 same) in
      ground (arith, same, e, has-append p names (k ∷ []))
  | inr apart ↦ ground (arith, apart, has-append p names (k ∷ []))
]

has-protocols_of :
    (p : String) (picked : PlanEdge → Bool) (edges : List PlanEdge)
    → has p (protocols_of picked edges) ≡ some_edge p picked edges
unfolding has protocols_of some_edge
has-protocols_of p picked [] = refl
has-protocols_of p picked (e ∷ edges) =
    ground (
      arith,
      has-put_name p e.protocol (protocols_of picked edges),
      has-protocols_of p picked edges,
    )

has-split_protocols :
    (p : String) (wanted : Bool) (covered ps : List String)
    → has p (split_protocols wanted covered ps)
      ≡ (has p ps && (if wanted then has p covered else not (has p covered)))
unfolding has
has-split_protocols p wanted covered [] = refl
has-split_protocols p wanted covered (q ∷ ps) = elim (Bool-cases (str_eq q p)) [
  | inl same ↦
      let e : has q covered ≡ has p covered = ap (λ i. has i covered) ((eq_iff q p).0 same) in
      ground (arith, same, e, has-split_protocols p wanted covered ps)
  | inr apart ↦ ground (arith, apart, has-split_protocols p wanted covered ps)
]

some_edge-any :
    (p : String) (edges : List PlanEdge)
    → some_edge p is_covered edges ≡ true
    → some_edge p any_edge edges ≡ true
unfolding some_edge
some_edge-any p [] h = h
some_edge-any p (e ∷ edges) h = ground (arith, h, some_edge-any p edges)

-- A protocol with a name is covered exactly if some edge of it has a fault test, and uncovered
-- exactly if there is an edge of it and none has: so no protocol is both.
pub with_coverage-protocols :
    (scenarios : List FaultScenario) (edges : List Edge) (p : String)
    → let c = with_coverage scenarios edges in
      (has p c.covered_protocols ≡ some_edge p is_covered c.edges)
      × (has p c.uncovered_protocols
          ≡ (some_edge p any_edge c.edges && not (some_edge p is_covered c.edges)))
unfolding with_coverage
with_coverage-protocols scenarios edges p =
    let planned = plan_edges (join_tests_to_target scenarios) edges in
    let covered = protocols_of is_covered planned in
    let all = protocols_of any_edge planned in
    let c = has-protocols_of p is_covered planned in
    let a = has-protocols_of p any_edge planned in
    (
      has-sort_strings p (split_protocols true covered all)
          ∙ (has-split_protocols p true covered all
              ∙ ground (arith, c, a, some_edge-any p planned)),
      has-sort_strings p (split_protocols false covered all)
          ∙ (has-split_protocols p false covered all ∙ ground (arith, c, a)),
    )
