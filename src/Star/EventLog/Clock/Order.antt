-- ===== src/Star/EventLog/Clock/Order.antt =====
-- internal/star/trace.go (vcHappensBefore): what the test on two vector clocks decides.
use faultbox.Base.{
  ◌≤◌, ◌<◌, ◌≡◌, ◌↔◌, refl, sym, ap, ◌∙◌, Bool, true, false, ◌&&◌, ◌||◌, none, some, List, [], ◌∷◌,
  String, str_eq, eq_iff, ltb, leb, if◌then◌else◌, arith, Bool-cases, inl, inr,
}
use faultbox.Base.Dict.{lookup}
use faultbox.Base.Names.{has, keys, lookup-absent}
use faultbox.Star.EventLog.{VectorClock, or_zero, tick}
use faultbox.Star.EventLog.Clock.{
  is_empty_clock, present, pass_one, pass_two, vc_happens_before, Below, Before,
}

bounded : List String → VectorClock → VectorClock → Bool
bounded [] vc1 vc2 = true
bounded (k ∷ ks) vc1 vc2 = leb (tick k vc1) (tick k vc2) && bounded ks vc1 vc2

some_less : List String → VectorClock → VectorClock → Bool
some_less [] vc1 vc2 = false
some_less (k ∷ ks) vc1 vc2 = ltb (tick k vc1) (tick k vc2) || some_less ks vc1 vc2

pass_one_lem :
    (ks : List String) (vc1 vc2 : VectorClock) (strict : Bool)
    → pass_one ks vc1 vc2 strict
      ≡ (if bounded ks vc1 vc2 then some (strict || some_less ks vc1 vc2) else none)
unfolding pass_one bounded some_less
pass_one_lem [] vc1 vc2 strict = ground arith
pass_one_lem (k ∷ ks) vc1 vc2 strict =
    ground (arith, pass_one_lem ks vc1 vc2 (strict || ltb (tick k vc1) (tick k vc2)))

bounded-at :
    (ks : List String) (vc1 vc2 : VectorClock) (k : String)
    → bounded ks vc1 vc2 ≡ true
    → has k ks ≡ true
    → tick k vc1 ≤ tick k vc2
unfolding bounded has
bounded-at [] vc1 vc2 k b h = absurd cc
bounded-at (j ∷ js) vc1 vc2 k b h = elim (Bool-cases (str_eq j k)) [
  | inl same ↦
      let e : j ≡ k = (eq_iff j k).0 same in
      let le : tick j vc1 ≤ tick j vc2 = ground (arith, b) in rw (sym e) le
  | inr apart ↦ bounded-at js vc1 vc2 k (ground (arith, b)) (ground (arith, apart, h))
]

pass_two-at :
    (ks : List String) (vc1 vc2 : VectorClock) (k : String)
    → pass_two ks vc1 vc2 ≡ true
    → has k ks ≡ true
    → lookup k vc2 ≡ none
    → tick k vc1 ≡ 0
unfolding pass_two has
pass_two-at [] vc1 vc2 k p h missing = absurd cc
pass_two-at (j ∷ js) vc1 vc2 k p h missing = elim (Bool-cases (str_eq j k)) [
  | inl same ↦
      let e : j ≡ k = (eq_iff j k).0 same in
      let away : present (lookup j vc2) ≡ false =
        ap (λ i. present (lookup i vc2)) e ∙ ap present missing in
      let zero_there : tick j vc1 ≡ 0 = ground (arith, p, away) in
      ap (λ i. tick i vc1) (sym e) ∙ zero_there
  | inr apart ↦ pass_two-at js vc1 vc2 k (ground (arith, p)) (ground (arith, apart, h)) missing
]

Below-bounded :
    (ks : List String) (vc1 vc2 : VectorClock) → Below vc1 vc2 → bounded ks vc1 vc2 ≡ true
unfolding bounded Below
Below-bounded [] vc1 vc2 h = refl
Below-bounded (k ∷ ks) vc1 vc2 h = ground (arith, h k, Below-bounded ks vc1 vc2 h)

Below-pass_two :
    (ks : List String) (vc1 vc2 : VectorClock) → Below vc1 vc2 → pass_two ks vc1 vc2 ≡ true
unfolding pass_two Below
Below-pass_two [] vc1 vc2 h = refl
Below-pass_two (k ∷ ks) vc1 vc2 h = ground (arith, h k, Below-pass_two ks vc1 vc2 h)

pub tick-absent : (k : String) (vc : VectorClock) → has k (keys vc) ≡ false → tick k vc ≡ 0
tick-absent k vc h = ap or_zero (lookup-absent k vc h)

bounded-Below :
    (vc1 vc2 : VectorClock)
    → bounded (keys vc2) vc1 vc2 ≡ true
    → pass_two (keys vc1) vc1 vc2 ≡ true
    → Below vc1 vc2
unfolding Below
bounded-Below vc1 vc2 b p k = elim (Bool-cases (has k (keys vc2))) [
  | inl there ↦ bounded-at (keys vc2) vc1 vc2 k b there
  | inr missing ↦ elim (Bool-cases (has k (keys vc1))) [
    | inl here ↦
        omega (arith, pass_two-at (keys vc1) vc1 vc2 k p here (lookup-absent k vc2 missing))
    | inr absent ↦ omega (arith, tick-absent k vc1 absent)
  ]
]

some_less-some :
    (ks : List String) (vc1 vc2 : VectorClock)
    → some_less ks vc1 vc2 ≡ true
    → ((k : String) × (tick k vc1 < tick k vc2))
unfolding some_less
some_less-some [] vc1 vc2 h = absurd cc
some_less-some (k ∷ ks) vc1 vc2 h = elim (Bool-cases (ltb (tick k vc1) (tick k vc2))) [
  | inl less ↦ (k, ground (arith, less))
  | inr more ↦ some_less-some ks vc1 vc2 (ground (arith, more, h))
]

some_less-at :
    (ks : List String) (vc1 vc2 : VectorClock) (k : String)
    → has k ks ≡ true
    → tick k vc1 < tick k vc2
    → some_less ks vc1 vc2 ≡ true
unfolding some_less has
some_less-at [] vc1 vc2 k h lt = absurd cc
some_less-at (j ∷ js) vc1 vc2 k h lt = elim (Bool-cases (str_eq j k)) [
  | inl same ↦
      let e : k ≡ j = sym ((eq_iff j k).0 same) in
      let lt_j : tick j vc1 < tick j vc2 = rw (sym e) lt in ground (arith, lt_j)
  | inr apart ↦ ground (arith, some_less-at js vc1 vc2 k (ground (arith, apart, h)) lt)
]

some_less-Before :
    (vc1 vc2 : VectorClock) (k : String)
    → tick k vc1 < tick k vc2
    → some_less (keys vc2) vc1 vc2 ≡ true
some_less-Before vc1 vc2 k lt = elim (Bool-cases (has k (keys vc2))) [
  | inl there ↦ some_less-at (keys vc2) vc1 vc2 k there lt
  | inr missing ↦ absurd (omega (arith, lt, tick-absent k vc2 missing))
]

both_empty :
    (vc1 vc2 : VectorClock)
    → (is_empty_clock vc1 && is_empty_clock vc2) ≡ true
    → some_less (keys vc2) vc1 vc2 ≡ false
unfolding some_less
both_empty [] [] e = refl
both_empty [] (entry ∷ vc2) e = absurd cc
both_empty (entry ∷ vc1) vc2 e = absurd cc

-- Both loops together.
vc_happens_before-passes :
    (vc1 vc2 : VectorClock)
    → vc_happens_before vc1 vc2 ≡ (
        bounded (keys vc2) vc1 vc2 && (pass_two (keys vc1) vc1 vc2 && some_less (keys vc2) vc1 vc2))
unfolding vc_happens_before
vc_happens_before-passes vc1 vc2 =
    let one = pass_one_lem (keys vc2) vc1 vc2 false in
    elim (Bool-cases (is_empty_clock vc1 && is_empty_clock vc2)) [
      | inl empty ↦ rw (empty, both_empty vc1 vc2 empty) (ground arith)
      | inr full ↦ rw (full, one) (ground arith)
    ]

-- The test on two vector clocks holds exactly if, with 0 for a missing entry, the first is at most
-- the second in every entry and less in one.
pub vc_happens_before_iff :
    (vc1 vc2 : VectorClock) → (vc_happens_before vc1 vc2 ≡ true) ↔ Before vc1 vc2
unfolding Before
vc_happens_before_iff vc1 vc2 =
    let passes = vc_happens_before-passes vc1 vc2 in
    (
      λ h. (
        bounded-Below vc1 vc2 (ground (arith, h, passes)) (ground (arith, h, passes)),
        some_less-some (keys vc2) vc1 vc2 (ground (arith, h, passes)),
      ),
      λ h.
          rw
            (
              passes,
              Below-bounded (keys vc2) vc1 vc2 h.0,
              Below-pass_two (keys vc1) vc1 vc2 h.0,
              some_less-Before vc1 vc2 h.1.0 h.1.1,
            )
            refl,
    )
