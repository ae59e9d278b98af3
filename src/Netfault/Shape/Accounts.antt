-- ===== src/Netfault/Shape/Accounts.antt =====
-- internal/netfault/shape.go: what a shaper counts.
use faultbox.Base.{
  ℕ, zero, suc, ◌+◌, ◌-◌, ◌≤◌, ◌<◌, ◌≡◌, refl, Bool, true, false, List, [], ◌∷◌, ltb, arith, length,
  All,
}
use faultbox.Base.Int.{ℤ, pos, negsuc}
use faultbox.Netfault.Shape.{
  Shaper, new_shaper, free_from, backlog_or_default, admit_at, is_full, admit,
}
use faultbox.Netfault.Shape.Slots.{Arrival, Slot, with_size, slot_of, run}

backlog_or_default-positive : (b : ℤ) → 0 < backlog_or_default b
unfolding backlog_or_default
backlog_or_default-positive (pos zero) = omega arith
backlog_or_default-positive (pos (suc n)) = omega arith
backlog_or_default-positive (negsuc n) = omega arith

module _ {F : Type 0} (tx_time : F → ℕ → ℕ) where
  -- What the counters say of the slots that a shaper gave out.
  pub record IsAccounted (arrivals : List Arrival) (s last : Shaper F) (slots : List Slot)
      : Type 0 where
    pub counted : last.admitted + last.dropped ≡ s.admitted + s.dropped + with_size arrivals
    pub admitted : last.admitted ≡ s.admitted + length slots
    pub raised : s.backlog_peak_nanos ≤ last.backlog_peak_nanos
    pub peak : All (λ (x : Slot). x.wait ≤ last.backlog_peak_nanos) slots
    pub bounded : s.backlog_peak_nanos ≤ s.max_backlog → last.backlog_peak_nanos ≤ s.max_backlog

  abbrev is_full_at : ℕ → ℕ → Shaper F → Bool
  is_full_at free now s = ltb s.max_backlog (free - now)

  admit_at-IsAccounted :
      (full : Bool) (free n now : ℕ) (s : Shaper F) (more : List Arrival) (last : Shaper F)
      (slots : List Slot)
      → is_full_at free now s ≡ full
      → IsAccounted more (admit_at tx_time full free (suc n) now s).0 last slots
      → let a : Arrival = record { size = pos (suc n); now = now } in
        IsAccounted
          (a ∷ more)
          s
          last
          (slot_of tx_time s a (admit_at tx_time full free (suc n) now s).1 slots)
  unfolding with_size
  admit_at-IsAccounted true free n now s more last slots e h = record {
    counted = omega (arith, h.counted);
    admitted = h.admitted;
    raised = h.raised;
    peak = h.peak;
    bounded = h.bounded;
  }
  admit_at-IsAccounted false free n now s more last slots e h = record {
    counted = omega (arith, h.counted);
    admitted = ground (arith, h.admitted);
    raised = ground (arith, h.raised);
    peak = (ground (arith, h.raised), h.peak);
    bounded = λ le. h.bounded (ground (arith, le, e));
  }

  admit-IsAccounted :
      (size : ℤ) (now : ℕ) (s : Shaper F) (more : List Arrival) (last : Shaper F)
      (slots : List Slot)
      → IsAccounted more (admit tx_time size now s).0 last slots
      → let a : Arrival = record { size = size; now = now } in
        IsAccounted (a ∷ more) s last (slot_of tx_time s a (admit tx_time size now s).1 slots)
  unfolding admit with_size
  admit-IsAccounted (pos zero) now s more last slots h = record {
    counted = omega (arith, h.counted);
    admitted = h.admitted;
    raised = h.raised;
    peak = h.peak;
    bounded = h.bounded;
  }
  admit-IsAccounted (negsuc n) now s more last slots h = record {
    counted = omega (arith, h.counted);
    admitted = h.admitted;
    raised = h.raised;
    peak = h.peak;
    bounded = h.bounded;
  }
  admit-IsAccounted (pos (suc n)) now s more last slots h =
      admit_at-IsAccounted (is_full now s) (free_from now s) n now s more last slots refl h

  run-IsAccounted_from :
      (arrivals : List Arrival) (s : Shaper F)
      → IsAccounted arrivals s (run tx_time arrivals s).0 (run tx_time arrivals s).1
  unfolding run admit with_size
  run-IsAccounted_from [] s = record {
    counted = omega arith;
    admitted = omega arith;
    raised = omega arith;
    peak = tt;
    bounded = λ h. h;
  }
  run-IsAccounted_from (a ∷ more) s =
      admit-IsAccounted a.size a.now s more (run tx_time more (admit tx_time a.size a.now s).0).0
        (run tx_time more (admit tx_time a.size a.now s).0).1
        (run-IsAccounted_from more (admit tx_time a.size a.now s).0)

  -- Over any arrivals at a new shaper, whatever the clock says, each packet that has a size is
  -- counted once, as admitted or dropped, link time is reserved for exactly the admitted ones, no
  -- packet waits longer than the recorded peak, and the peak stays within the backlog, which is
  -- positive.
  pub run-IsAccounted :
      (rate : F) (max_backlog : ℤ) (arrivals : List Arrival)
      → let s : Shaper F = new_shaper rate max_backlog in
        let last : Shaper F = (run tx_time arrivals s).0 in
        let slots : List Slot = (run tx_time arrivals s).1 in
        (last.admitted + last.dropped ≡ with_size arrivals)
        × (last.admitted ≡ length slots)
        × All (λ (x : Slot). x.wait ≤ last.backlog_peak_nanos) slots
        × (last.backlog_peak_nanos ≤ s.max_backlog)
        × (0 < s.max_backlog)
  unfolding new_shaper
  run-IsAccounted rate max_backlog arrivals =
      let s : Shaper F = new_shaper rate max_backlog in
      let h : IsAccounted arrivals s (run tx_time arrivals s).0 (run tx_time arrivals s).1 =
        run-IsAccounted_from arrivals s in
      (
        omega (arith, h.counted),
        omega (arith, h.admitted),
        h.peak,
        h.bounded (omega arith),
        backlog_or_default-positive max_backlog,
      )
