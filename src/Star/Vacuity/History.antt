-- ===== src/Star/Vacuity/History.antt =====
-- internal/star/vacuity.go: what the diagnostic says of the history of a suite, newest call first.
use faultbox.Base.{
  ◌+◌, ◌≡◌, refl, Bool, true, false, not, ◌&&◌, ◌||◌, List, [], ◌∷◌, String, str_eq, ltb, arith,
  Bool-cases, inl, inr,
}
use faultbox.Base.Dict.{lookup, lookup-insert}
use faultbox.Star.Vacuity.{
  IfaceRef, in_refs, VacuityState, new_vacuity_state, assertion_count, note_assertion, note_step,
  end_test, missing_positive_control,
}
use faultbox.Star.Vacuity.Refs.{in_refs-add_ref, in_refs-add_all, in_refs-missing_from}

pub data SuiteCall : Type 0 where
  asserted_in : String → SuiteCall
  stepped_on : String → String → Bool → SuiteCall
  test_ended : String → String → SuiteCall

abbrev pub call : SuiteCall → VacuityState → VacuityState
call (asserted_in test) v = note_assertion test v
call (stepped_on svc iface success) v = note_step svc iface success v
call (test_ended test result) v = end_test test result v

-- The state after the calls of a history.
unfoldable pub after_calls : List SuiteCall → VacuityState
unfolding note_assertion note_step end_test
after_calls [] = new_vacuity_state
after_calls (c ∷ older) = call c (after_calls older)

abbrev pub is_step_on : IfaceRef → String → String → Bool
is_step_on ref svc iface =
    not (str_eq svc "") && (str_eq svc ref.service && str_eq iface ref.interface_name)

-- The test evaluated an assertion.
unfoldable pub asserted : String → List SuiteCall → Bool
asserted test [] = false
asserted test (asserted_in t ∷ older) = (not (str_eq t "") && str_eq t test) || asserted test older
asserted test (stepped_on svc iface success ∷ older) = asserted test older
asserted test (test_ended t result ∷ older) = asserted test older

-- Some step ran against the interface.
unfoldable pub used : IfaceRef → List SuiteCall → Bool
used ref [] = false
used ref (asserted_in t ∷ older) = used ref older
used ref (stepped_on svc iface success ∷ older) = is_step_on ref svc iface || used ref older
used ref (test_ended t result ∷ older) = used ref older

-- A step against the interface succeeded since the last test ended.
unfoldable pub succeeded : IfaceRef → List SuiteCall → Bool
succeeded ref [] = false
succeeded ref (asserted_in t ∷ older) = succeeded ref older
succeeded ref (stepped_on svc iface success ∷ older) =
    (success && is_step_on ref svc iface) || succeeded ref older
succeeded ref (test_ended t result ∷ older) = false

-- Some test passed, had asserted something, and had seen a step against the interface succeed.
unfoldable pub controlled : IfaceRef → List SuiteCall → Bool
unfolding asserted succeeded
controlled ref [] = false
controlled ref (asserted_in t ∷ older) = controlled ref older
controlled ref (stepped_on svc iface success ∷ older) = controlled ref older
controlled ref (test_ended t result ∷ older) =
    (str_eq result "pass" && (asserted t older && succeeded ref older)) || controlled ref older

counted :
    (test : String) (h : List SuiteCall)
    → ltb 0 (assertion_count test (after_calls h)) ≡ asserted test h
unfolding after_calls asserted assertion_count note_assertion note_step end_test lookup
counted test [] = refl
counted test (asserted_in t ∷ older) =
    let v = after_calls older in
    let rest = counted test older in
    elim (Bool-cases (str_eq t "")) [
      | inl empty ↦ rw (empty) rest
      | inr named ↦
          rw (named, lookup-insert t test (assertion_count t v + 1) v.assertions)
            (ground (arith, rest))
    ]
counted test (stepped_on svc iface success ∷ older) = elim (Bool-cases (str_eq svc "")) [
  | inl empty ↦ rw (empty) (counted test older)
  | inr named ↦ rw (named) (counted test older)
]
counted test (test_ended t result ∷ older) = counted test older

stepped-used :
    (ref : IfaceRef) (h : List SuiteCall) → in_refs ref (after_calls h).stepped ≡ used ref h
unfolding after_calls used note_assertion note_step end_test in_refs
stepped-used ref [] = refl
stepped-used ref (asserted_in t ∷ older) = elim (Bool-cases (str_eq t "")) [
  | inl empty ↦ rw (empty) (stepped-used ref older)
  | inr named ↦ rw (named) (stepped-used ref older)
]
stepped-used ref (stepped_on svc iface success ∷ older) =
    let v = after_calls older in
    elim (Bool-cases (str_eq svc "")) [
      | inl empty ↦ rw (empty) (stepped-used ref older)
      | inr named ↦
          rw
            (
              named,
              in_refs-add_ref ref (record { service = svc; interface_name = iface }) v.stepped,
              stepped-used ref older,
            )
            refl
    ]
stepped-used ref (test_ended t result ∷ older) = stepped-used ref older

candidates-succeeded :
    (ref : IfaceRef) (h : List SuiteCall) → in_refs ref (after_calls h).candidates ≡ succeeded ref h
unfolding after_calls succeeded note_assertion note_step end_test in_refs
candidates-succeeded ref [] = refl
candidates-succeeded ref (asserted_in t ∷ older) = elim (Bool-cases (str_eq t "")) [
  | inl empty ↦ rw (empty) (candidates-succeeded ref older)
  | inr named ↦ rw (named) (candidates-succeeded ref older)
]
candidates-succeeded ref (stepped_on svc iface true ∷ older) =
    let v = after_calls older in
    elim (Bool-cases (str_eq svc "")) [
      | inl empty ↦ rw (empty) (candidates-succeeded ref older)
      | inr named ↦
          rw
            (
              named,
              in_refs-add_ref ref (record { service = svc; interface_name = iface }) v.candidates,
              candidates-succeeded ref older,
            )
            refl
    ]
candidates-succeeded ref (stepped_on svc iface false ∷ older) = elim (Bool-cases (str_eq svc "")) [
  | inl empty ↦ rw (empty) (candidates-succeeded ref older)
  | inr named ↦ rw (named) (candidates-succeeded ref older)
]
candidates-succeeded ref (test_ended t result ∷ older) = refl

positive-controlled :
    (ref : IfaceRef) (h : List SuiteCall)
    → in_refs ref (after_calls h).positive_control ≡ controlled ref h
unfolding after_calls controlled note_assertion note_step end_test in_refs
positive-controlled ref [] = refl
positive-controlled ref (asserted_in t ∷ older) = elim (Bool-cases (str_eq t "")) [
  | inl empty ↦ rw (empty) (positive-controlled ref older)
  | inr named ↦ rw (named) (positive-controlled ref older)
]
positive-controlled ref (stepped_on svc iface success ∷ older) = elim (Bool-cases (str_eq svc "")) [
  | inl empty ↦ rw (empty) (positive-controlled ref older)
  | inr named ↦ rw (named) (positive-controlled ref older)
]
positive-controlled ref (test_ended t result ∷ older) =
    let v = after_calls older in
    rw (counted t older) (
      ground (
        arith,
        in_refs-add_all ref v.candidates v.positive_control,
        candidates-succeeded ref older,
        positive-controlled ref older,
      ))

-- The diagnostic lists an interface exactly if some step ran against it and no test controls it:
-- none passed under whose name an assertion was evaluated before and in which a step against the
-- interface succeeded.
pub missing_positive_control_lem :
    (ref : IfaceRef) (h : List SuiteCall)
    → in_refs ref (missing_positive_control (after_calls h))
      ≡ (used ref h && not (controlled ref h))
unfolding missing_positive_control
missing_positive_control_lem ref h =
    let v = after_calls h in
    rw
      (
        in_refs-missing_from ref v.stepped v.positive_control,
        stepped-used ref h,
        positive-controlled ref h,
      )
      refl
