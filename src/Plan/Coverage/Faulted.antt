-- ===== src/Plan/Coverage/Faulted.antt =====
-- internal/plan/coverage.go: what makes an edge and a protocol covered.
use faultbox.Base.{
  ◌≡◌, refl, sym, ap, ◌∙◌, Bool, true, false, ◌&&◌, ◌||◌, Option, none, some, List, [], ◌∷◌, String,
  str_eq, eq_iff, eq_refl, if◌then◌else◌, arith, Bool-cases, inl, inr, and-both,
}
use faultbox.Base.Dict.{Dict, lookup, insert, lookup-insert}
use faultbox.Base.Names.{has, has-append}
use faultbox.Base.Sort.{has-sort_strings}
use faultbox.Plan.{FaultAssumption, FaultScenario}
use faultbox.Plan.Build.{or_empty}
use faultbox.Plan.Coverage.{
  Edge, append_unique, covering_test, Join, join_target, join_targets, join_faults, join_from,
  join_tests_to_target, plan_edge,
}

unfoldable pub in_targets : String → List (Option String) → Bool
in_targets q [] = false
in_targets q (none ∷ ts) = in_targets q ts
in_targets q (some t ∷ ts) = str_eq t q || in_targets q ts

-- Some assumption has a rule that targets the service.
unfoldable pub any_targets : String → List FaultAssumption → Bool
any_targets q [] = false
any_targets q (fa ∷ faults) =
    (in_targets q fa.rules || in_targets q fa.proxy_rules) || any_targets q faults

-- Some scenario under this test has a rule that targets the service.
unfoldable pub faulted_by : String → String → List FaultScenario → Bool
faulted_by test q [] = false
faulted_by test q (fs ∷ scenarios) =
    (str_eq (covering_test fs fs.matrix) test && any_targets q fs.faults)
    || faulted_by test q scenarios

abbrev covers : String → String → Dict (List String) → Bool
covers test q out = has test (or_empty (lookup q out))

has-append_unique :
    (k v : String) (xs : List String) → has k (append_unique xs v) ≡ (has k xs || str_eq v k)
unfolding has
has-append_unique k v xs = elim (Bool-cases (str_eq v k)) [
  | inl same ↦
      let e : has v xs ≡ has k xs = ap (λ i. has i xs) ((eq_iff v k).0 same) in
      ground (arith, same, e, has-append k xs (v ∷ []))
  | inr apart ↦ ground (arith, apart, has-append k xs (v ∷ []))
]

covers-insert :
    (test k q : String) (xs : List String) (out : Dict (List String))
    → covers test q (insert k xs out) ≡ (if str_eq k q then has test xs else covers test q out)
covers-insert test k q xs out = elim (Bool-cases (str_eq k q)) [
  | inl same ↦
      let at : lookup q (insert k xs out) ≡ some xs =
        ground (arith, same, lookup-insert k q xs out) in
      ap (λ o. has test (or_empty o)) at ∙ ground (arith, same)
  | inr apart ↦
      let at : lookup q (insert k xs out) ≡ lookup q out =
        ground (arith, apart, lookup-insert k q xs out) in
      ap (λ o. has test (or_empty o)) at ∙ ground (arith, apart)
]

-- What has been seen in an assumption has its test already.
Seen : String → Join → Type 0
Seen test j = (q : String) → has q j.seen ≡ true → covers test q j.out ≡ true

module _ (test : String) where
  abbrev joined : String → Join → Dict (List String)
  joined t j = insert t (append_unique (or_empty (lookup t j.out)) test) j.out

  covers-joined :
      (k q t : String) (j : Join)
      → covers k q (joined t j) ≡ (covers k q j.out || (str_eq test k && str_eq t q))
  covers-joined k q t j =
      let old = or_empty (lookup t j.out) in
      let at = covers-insert k t q (append_unique old test) j.out in
      elim (Bool-cases (str_eq t q)) [
        | inl same ↦
            let e : covers k t j.out ≡ covers k q j.out =
              ap (λ i. covers k i j.out) ((eq_iff t q).0 same) in
            ground (arith, same, at, e, has-append_unique k test old)
        | inr apart ↦ ground (arith, apart, at)
      ]

  covers-again :
      (k q t : String) (j : Join)
      → covers test t j.out ≡ true
      → covers k q j.out ≡ (covers k q j.out || (str_eq test k && str_eq t q))
  covers-again k q t j h = elim (Bool-cases (str_eq test k && str_eq t q)) [
    | inl same ↦
        let both = and-both (str_eq test k) (str_eq t q) same in
        let hit : covers k q j.out ≡ true =
          sym (ap (λ i. covers i q j.out) ((eq_iff test k).0 both.0))
          ∙ (sym (ap (λ i. covers test i j.out) ((eq_iff t q).0 both.1)) ∙ h) in
        ground (arith, hit)
    | inr apart ↦ ground (arith, apart)
  ]

  covers-join_target :
      (k q : String) (t : Option String) (j : Join)
      → Seen test j
      → covers k q (join_target test t j).out
        ≡ (covers k q j.out || (str_eq test k && in_targets q (t ∷ [])))
  unfolding Seen in_targets
  covers-join_target k q none j seen = ground arith
  covers-join_target k q (some t) j seen = elim (Bool-cases (has t j.seen)) [
    | inl again ↦ rw (again) (
        covers-again k q t j (seen t again)
        ∙ ap (λ b. covers k q j.out || (str_eq test k && b)) (ground arith))
    | inr fresh ↦
        rw (fresh) (
          covers-joined k q t j ∙ ap (λ b. covers k q j.out || (str_eq test k && b)) (ground arith))
  ]

  Seen-join_target : (t : Option String) (j : Join) → Seen test j → Seen test (join_target test t j)
  unfolding Seen has
  Seen-join_target none j seen = seen
  Seen-join_target (some t) j seen = elim (Bool-cases (has t j.seen)) [
    | inl again ↦ rw (again) seen
    | inr fresh ↦ rw (fresh) (λ q h. covers-joined test q t j ∙ (elim (Bool-cases (str_eq t q)) [
      | inl same ↦ ground (arith, same, eq_refl test)
      | inr apart ↦ ground (arith, seen q (ground (arith, apart, h)))
    ]))
  ]

  in_targets-cons :
      (q : String) (t : Option String) (ts : List (Option String))
      → in_targets q (t ∷ ts) ≡ (in_targets q (t ∷ []) || in_targets q ts)
  unfolding in_targets
  in_targets-cons q none ts = refl
  in_targets-cons q (some t) ts = ground arith

  Seen-join_targets :
      (ts : List (Option String)) (j : Join) → Seen test j → Seen test (join_targets test ts j)
  unfolding join_targets
  Seen-join_targets [] j seen = seen
  Seen-join_targets (t ∷ ts) j seen =
      Seen-join_targets ts (join_target test t j) (Seen-join_target t j seen)

  covers-join_targets :
      (k q : String) (ts : List (Option String)) (j : Join)
      → Seen test j
      → covers k q (join_targets test ts j).out
        ≡ (covers k q j.out || (str_eq test k && in_targets q ts))
  unfolding join_targets in_targets
  covers-join_targets k q [] j seen = ground arith
  covers-join_targets k q (t ∷ ts) j seen =
      covers-join_targets k q ts (join_target test t j) (Seen-join_target t j seen)
      ∙ ground (arith, covers-join_target k q t j seen, in_targets-cons q t ts)

  covers-join_faults :
      (k q : String) (faults : List FaultAssumption) (out : Dict (List String))
      → covers k q (join_faults test faults out)
        ≡ (covers k q out || (str_eq test k && any_targets q faults))
  unfolding join_faults any_targets
  covers-join_faults k q [] out = ground arith
  covers-join_faults k q (fa ∷ faults) out =
      let start : Join = record { out = out; seen = [] } in
      let none_seen : Seen test start = unfold Seen has in λ v h. absurd cc in
      let rules : Join = join_targets test fa.rules start in
      covers-join_faults k q faults (join_targets test fa.proxy_rules rules).out
      ∙ ground (
        arith,
        covers-join_targets k q fa.rules start none_seen,
        covers-join_targets k q fa.proxy_rules rules (Seen-join_targets fa.rules start none_seen),
      )

covers-join_from :
    (k q : String) (scenarios : List FaultScenario) (out : Dict (List String))
    → covers k q (join_from scenarios out) ≡ (covers k q out || faulted_by k q scenarios)
unfolding join_from faulted_by
covers-join_from k q [] out = ground arith
covers-join_from k q (fs ∷ scenarios) out =
    let test = covering_test fs fs.matrix in
    covers-join_from k q scenarios (join_faults test fs.faults out)
    ∙ ground (arith, covers-join_faults test k q fs.faults out)

-- An edge lists a test exactly if some fault scenario under that test, its own or that of its
-- matrix, has an assumption with a syscall rule or a proxy rule that targets the edge's end.
pub fault_tests-faulted_by :
    (k : String) (scenarios : List FaultScenario) (e : Edge)
    → has k (plan_edge (join_tests_to_target scenarios) e).fault_tests ≡ faulted_by k e.to scenarios
unfolding join_tests_to_target has lookup
fault_tests-faulted_by k scenarios e =
    has-sort_strings k (or_empty (lookup e.to (join_from scenarios [])))
    ∙ covers-join_from k e.to scenarios []
