-- ===== src/Star/EventLog/Causality/Times.antt =====
-- internal/star/events.go: the entries of the vector clocks that the log keeps, after each of its
-- operations.
use faultbox.Base.{
  ℕ, ◌+◌, ◌≡◌, refl, ap, ◌∙◌, false, Option, none, some, List, [], ◌∷◌, String, str_eq, eq_iff, ltb,
  if◌then◌else◌, arith, Bool-cases, inl, inr,
}
use faultbox.Base.Dict.{Dict, lookup, insert, lookup-insert}
use faultbox.Base.Names.{has, keys}
use faultbox.Star.EventLog.{
  VectorClock, EventLog, or_empty, tick, clock_of, tick_service, advance_clocks, merge_keys, merged,
  merge_clock,
}
use faultbox.Star.EventLog.Clock.Order.{tick-absent}

abbrev pub larger : ℕ → ℕ → ℕ
larger a b = if ltb a b then b else a

pub tick-insert :
    (j k : String) (v : ℕ) (vc : VectorClock)
    → tick k (insert j v vc) ≡ (if str_eq j k then v else tick k vc)
tick-insert j k v vc = ground (arith, lookup-insert j k v vc)

pub clock_of-insert :
    (j s : String) (c : VectorClock) (clocks : Dict VectorClock)
    → clock_of s (insert j c clocks) ≡ (if str_eq j s then c else clock_of s clocks)
clock_of-insert j s c clocks = ground (arith, lookup-insert j s c clocks)

tick-merge_one :
    (j k : String) (remote local : VectorClock)
    → tick k (if ltb (tick j local) (tick j remote) then insert j (tick j remote) local else local)
      ≡ (if str_eq j k then larger (tick k local) (tick k remote) else tick k local)
tick-merge_one j k remote local =
    let inserted = tick-insert j k (tick j remote) local in
    elim (Bool-cases (str_eq j k)) [
      | inl same ↦
          let e : j ≡ k = (eq_iff j k).0 same in
          let local_e : tick j local ≡ tick k local = ap (λ i. tick i local) e in
          let remote_e : tick j remote ≡ tick k remote = ap (λ i. tick i remote) e in
          ground (arith, inserted, same, local_e, remote_e)
      | inr apart ↦ ground (arith, inserted, apart)
    ]

tick-merge_keys :
    (ks : List String) (k : String) (remote local : VectorClock)
    → tick k (merge_keys ks remote local)
      ≡ (if has k ks then larger (tick k local) (tick k remote) else tick k local)
unfolding merge_keys has
tick-merge_keys [] k remote local = refl
tick-merge_keys (j ∷ ks) k remote local = ground (
  arith,
  tick-merge_one j k remote local,
  tick-merge_keys ks k remote
      (if ltb (tick j local) (tick j remote) then insert j (tick j remote) local else local),
)

tick-merged :
    (k : String) (remote : Option VectorClock) (local : VectorClock)
    → tick k (merged remote local) ≡ larger (tick k local) (tick k (or_empty remote))
unfolding lookup
tick-merged k none local = ground arith
tick-merged k (some remote) local =
    let merge = tick-merge_keys (keys remote) k remote local in
    elim (Bool-cases (has k (keys remote))) [
      | inl there ↦ ground (arith, merge, there)
      | inr absent ↦ ground (arith, merge, absent, tick-absent k remote absent)
    ]

-- The entry for `k` in the clock of `s`.
abbrev pub time : EventLog → String → String → ℕ
time l s k = tick k (clock_of s l.clocks)

clock_of-made :
    (local s : String) (clocks : Dict VectorClock)
    → clock_of s (insert local (clock_of local clocks) clocks) ≡ clock_of s clocks
clock_of-made local s clocks =
    let at = clock_of-insert local s (clock_of local clocks) clocks in
    elim (Bool-cases (str_eq local s)) [
      | inl same ↦ rw (at, same) (ap (λ i. clock_of i clocks) ((eq_iff local s).0 same))
      | inr apart ↦ rw (at, apart) refl
    ]

pub time-merge_clock :
    (l : EventLog) (local remote s k : String)
    → time (merge_clock local remote l) s k
      ≡ (if str_eq local s then larger (time l local k) (time l remote k) else time l s k)
unfolding merge_clock
time-merge_clock l local remote s k =
    let made = insert local (clock_of local l.clocks) l.clocks in
    let joined = merged (lookup remote made) (clock_of local made) in
    let at = clock_of-insert local s joined made in
    let join =
      tick-merged k (lookup remote made) (clock_of local made)
      ∙ ap (λ c. larger (tick k c) (tick k (clock_of remote made)))
          (clock_of-made local local l.clocks)
      ∙ ap (λ c. larger (time l local k) (tick k c)) (clock_of-made local remote l.clocks) in
    elim (Bool-cases (str_eq local s)) [
      | inl same ↦ rw (at, same) join
      | inr apart ↦ rw (at, apart) (ap (tick k) (clock_of-made local s l.clocks))
    ]

pub tick-advance_clocks :
    (service s k : String) (clocks : Dict VectorClock)
    → str_eq service "" ≡ false
    → tick k (clock_of s (advance_clocks service clocks)) ≡ (
        if str_eq service s
        then (if str_eq service k
            then tick service (clock_of service clocks) + 1
            else tick k (clock_of service clocks))
        else tick k (clock_of s clocks))
tick-advance_clocks service s k clocks named =
    let at = clock_of-insert service s (tick_service service (clock_of service clocks)) clocks in
    let ticked =
      tick-insert service k (tick service (clock_of service clocks) + 1)
        (clock_of service clocks) in
    elim (Bool-cases (str_eq service s)) [
      | inl same ↦ rw (named, at, same, ticked) refl
      | inr apart ↦ rw (named, at, apart) refl
    ]
