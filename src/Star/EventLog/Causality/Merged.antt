-- ===== src/Star/EventLog/Causality/Merged.antt =====
-- internal/star/events.go: the clocks after a merge.
use faultbox.Base.{◌++◌, String, str_eq, eq_iff, ltb, arith, Bool-cases, inl, inr}
use faultbox.Star.EventLog.{EventLog, merge_clock}
use faultbox.Star.EventLog.Run.{merge_clock_op}
use faultbox.Star.EventLog.Causality.{
  Heard, learn, Among-left, Among-right, Among-append, Among-if, Among-kept,
}
use faultbox.Star.EventLog.Causality.Times.{time, time-merge_clock}
use faultbox.Star.EventLog.Causality.Kept.{Own, Reached, Told, Self}

module _ (l : EventLog) (heard : Heard) (local remote : String) where
  pub Own-merge_clock : Own l → Own (merge_clock local remote l)
  unfolding Own
  Own-merge_clock h s k = ground (
    arith,
    time-merge_clock l local remote s k,
    time-merge_clock l local remote k k,
    h s k,
    h local k,
    h remote k,
    eq_iff local s,
    eq_iff local k,
  )

  pub Reached-merge_clock :
      Reached l heard
      → Reached (merge_clock local remote l) (learn l (merge_clock_op local remote) heard)
  unfolding Reached learn
  Reached-merge_clock h e t k am named =
      let at = time-merge_clock l local remote t k in
      elim (Among-if e (str_eq local t) (heard t ++ heard remote) (heard t) am) [
        | inl joined ↦ elim (Among-append e (heard t) (heard remote) joined.1) [
          | inl mine ↦ ground (arith, at, joined.0, eq_iff local t, h e t k mine named)
          | inr theirs ↦ ground (arith, at, joined.0, h e remote k theirs named)
        ]
        | inr other ↦ ground (arith, at, other.0, h e t k other.1 named)
      ]

  pub Told-merge_clock :
      Told l heard → Told (merge_clock local remote l) (learn l (merge_clock_op local remote) heard)
  unfolding Told learn merge_clock
  Told-merge_clock h e t am named le =
      let at = time-merge_clock l local remote t e.service in
      elim (Bool-cases (str_eq local t)) [
        | inl same ↦
            rw (same) (elim (Bool-cases (ltb (time l local e.service) (time l remote e.service))) [
              | inl more ↦
                  Among-right e (heard t) (heard remote)
                    (h e remote am named (ground (arith, at, same, more, le)))
              | inr less ↦
                  Among-left e (heard t) (heard remote)
                    (h e t am named (ground (arith, at, same, less, le, eq_iff local t)))
            ])
        | inr other ↦ rw (other) (h e t am named (ground (arith, at, other, le)))
      ]

  pub Self-merge_clock :
      Self l heard → Self (merge_clock local remote l) (learn l (merge_clock_op local remote) heard)
  unfolding Self learn merge_clock
  Self-merge_clock h e am =
      Among-kept e (str_eq local e.service) (heard e.service) (heard remote) (h e am)
