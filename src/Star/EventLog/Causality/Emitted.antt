-- ===== src/Star/EventLog/Causality/Emitted.antt =====
-- internal/star/events.go: the clocks after an event.
use faultbox.Base.{
  ℕ, ◌+◌, ◌≤◌, ◌≡◌, refl, ap, true, false, [], ◌∷◌, ◌++◌, String, str_eq, eq_iff, eq_refl,
  if◌then◌else◌, arith, Bool-cases, inl, inr,
}
use mathlib.Core.Path.{subst}
use faultbox.Base.Dict.{Dict}
use faultbox.Star.EventLog.{EventLog, tick, new_event, append_event}
use faultbox.Star.EventLog.Run.{emit_op}
use faultbox.Star.EventLog.Causality.{
  Among, Heard, learn, Among-right, Among-snoc, Among-if, Among-kept,
}
use faultbox.Star.EventLog.Causality.Times.{time, tick-advance_clocks}
use faultbox.Star.EventLog.Causality.Kept.{Own, Reached, Told, Self}

module _ (l : EventLog) (now : ℕ) (typ service : String) (fields : Dict String) where
  pub time_emitted :
      (s k : String)
      → str_eq service "" ≡ false
      → time (append_event (new_event now typ service fields l) l) s k ≡ (
          if str_eq service s
          then (if str_eq service k then time l service service + 1 else time l service k)
          else time l s k)
  unfolding append_event new_event
  time_emitted s k named = tick-advance_clocks service s k l.clocks named

  time_unnamed :
      (s k : String)
      → str_eq service "" ≡ true
      → time (append_event (new_event now typ service fields l) l) s k ≡ time l s k
  unfolding append_event new_event
  time_unnamed s k unnamed = rw (unnamed) refl

  pub time_grows :
      (s k : String) → time l s k ≤ time (append_event (new_event now typ service fields l) l) s k
  time_grows s k = elim (Bool-cases (str_eq service "")) [
    | inl unnamed ↦ omega (arith, time_unnamed s k unnamed)
    | inr named ↦ ground (arith, time_emitted s k named, eq_iff service s, eq_iff service k)
  ]

  pub time_foreign :
      (t s : String)
      → str_eq s t ≡ false
      → time (append_event (new_event now typ service fields l) l) t s ≡ time l t s
  time_foreign t s apart = elim (Bool-cases (str_eq service "")) [
    | inl unnamed ↦ time_unnamed t s unnamed
    | inr named ↦
        ground
          (arith, time_emitted t s named, apart, eq_iff service s, eq_iff service t, eq_iff s t)
  ]

  pub tick-new_event :
      (k : String)
      → str_eq service "" ≡ false
      → tick k (new_event now typ service fields l).vector_clock
        ≡ time (append_event (new_event now typ service fields l) l) service k
  unfolding append_event new_event
  tick-new_event k named = rw (named) refl

  pub Own-emitted : Own l → Own (append_event (new_event now typ service fields l) l)
  unfolding Own
  Own-emitted h s k = elim (Bool-cases (str_eq service "")) [
    | inl unnamed ↦ omega (arith, time_unnamed s k unnamed, time_unnamed k k unnamed, h s k)
    | inr named ↦ ground (
      arith,
      time_emitted s k named,
      time_emitted k k named,
      h s k,
      h service k,
      eq_iff service s,
      eq_iff service k,
    )
  ]

  Reached-new :
      (t k : String)
      → str_eq service t ≡ true
      → str_eq (new_event now typ service fields l).service "" ≡ false
      → tick k (new_event now typ service fields l).vector_clock
        ≤ time (append_event (new_event now typ service fields l) l) t k
  unfolding new_event
  Reached-new t k own named =
      let here =
        ap (λ i. time (append_event (new_event now typ service fields l) l) i k)
          ((eq_iff service t).0 own) in
      omega (arith, tick-new_event k named, here)

  Self-new :
      (heard : Heard)
      → Among (new_event now typ service fields l) (
          if str_eq service (new_event now typ service fields l).service
          then heard (new_event now typ service fields l).service
            ++ new_event now typ service fields l ∷ []
          else heard (new_event now typ service fields l).service)
  unfolding new_event Among
  Self-new heard =
      let n = new_event now typ service fields l in
      rw (eq_refl service) (Among-right n (heard service) (n ∷ []) (inl refl))

  Told-new :
      (heard : Heard) (t : String)
      → Own l
      → str_eq (new_event now typ service fields l).service "" ≡ false
      → tick
          (new_event now typ service fields l).service
          (new_event now typ service fields l).vector_clock
        ≤ time
            (append_event (new_event now typ service fields l) l)
            t
            (new_event now typ service fields l).service
      → Among
          (new_event now typ service fields l)
          (if str_eq service t then heard t ++ new_event now typ service fields l ∷ [] else heard t)
  unfolding new_event Among Own
  Told-new heard t own named le =
      let n = new_event now typ service fields l in
      elim (Bool-cases (str_eq service t)) [
        | inl same ↦ rw (same) (Among-right n (heard t) (n ∷ []) (inl refl))
        | inr other ↦ absurd (
            ground (
              arith,
              tick-new_event service named,
              time_emitted service service named,
              time_emitted t service named,
              eq_refl service,
              own t service,
              other,
              le,
            ))
      ]

module _ (l : EventLog) (heard : Heard) (now : ℕ) (typ service : String)
    (fields : Dict String) where
  pub Reached-emitted :
      Reached l heard
      → Reached
          (append_event (new_event now typ service fields l) l)
          (learn l (emit_op now typ service fields) heard)
  unfolding Reached learn
  Reached-emitted h e t k am named_e =
      let n = new_event now typ service fields l in
      let grows = time_grows l now typ service fields t k in
      elim (Among-if e (str_eq service t) (heard t ++ n ∷ []) (heard t) am) [
        | inl own ↦ elim (Among-snoc e n (heard t) own.1) [
          | inl before ↦ omega (arith, h e t k before named_e, grows)
          | inr last ↦
              subst
                (λ x.
                  str_eq x.service "" ≡ false → tick k x.vector_clock ≤ time (append_event n l) t k)
                last (Reached-new l now typ service fields t k own.0) named_e
        ]
        | inr other ↦ omega (arith, h e t k other.1 named_e, grows)
      ]

  pub Self-emitted :
      Self l heard
      → Self
          (append_event (new_event now typ service fields l) l)
          (learn l (emit_op now typ service fields) heard)
  unfolding Self learn append_event
  Self-emitted h e am =
      let n = new_event now typ service fields l in
      elim (Among-snoc e n l.events am) [
        | inl before ↦
            Among-kept e (str_eq service e.service) (heard e.service) (n ∷ []) (h e before)
        | inr last ↦
            subst
              (λ x.
                Among x
                  (if str_eq service x.service then heard x.service ++ n ∷ [] else heard x.service))
              last (Self-new l now typ service fields heard)
      ]

  pub Told-emitted :
      Own l
      → Self l heard
      → Told l heard
      → Told
          (append_event (new_event now typ service fields l) l)
          (learn l (emit_op now typ service fields) heard)
  unfolding Told Self learn append_event
  Told-emitted own self h e t am named_e le =
      let n = new_event now typ service fields l in
      elim (Among-snoc e n l.events am) [
        | inl before ↦
            Among-kept e (str_eq service t) (heard t) (n ∷ [])
              (elim (Bool-cases (str_eq e.service t)) [
                | inl mine ↦
                    subst (λ s. Among e (heard s)) ((eq_iff e.service t).0 mine) (self e before)
                | inr foreign ↦
                    h e t before named_e
                      (omega (arith, le, time_foreign l now typ service fields t e.service foreign))
              ])
        | inr last ↦
            subst
              (λ x.
                str_eq x.service "" ≡ false
                → tick x.service x.vector_clock ≤ time (append_event n l) t x.service
                → Among x (if str_eq service t then heard t ++ n ∷ [] else heard t))
              last (Told-new l now typ service fields heard t own) named_e le
      ]
