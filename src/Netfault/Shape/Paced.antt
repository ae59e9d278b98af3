-- ===== src/Netfault/Shape/Paced.antt =====
-- internal/netfault/shape.go: how far apart the packets of a shaped link are, and when one is dropped.
use mathlib.Core.Path.{subst}
use faultbox.Base.{
  ℕ, zero, suc, ◌+◌, ◌-◌, ◌≤◌, ◌≡◌, refl, Bool, true, false, none, List, [], ◌∷◌, ◌++◌, ◌||◌, ltb,
  arith, All, ap, ◌∙◌, sym, ◌↔◌,
}
use faultbox.Base.Int.{ℤ, pos, negsuc}
use faultbox.Netfault.Shape.{Shaper, new_shaper, free_from, admit_at, is_full, admit}
use faultbox.Netfault.Shape.Slots.{Arrival, Slot, slot_of, run}

-- Some packet that was admitted is still on the link after the time.
unfoldable pub busy_after : ℕ → List Slot → Bool
busy_after t [] = false
busy_after t (x ∷ more) = ltb t (x.start + x.time) || busy_after t more

-- The time that some packets occupy the link.
unfoldable pub total_time : List Slot → ℕ
total_time [] = 0
total_time (x ∷ more) = x.time + total_time more

-- Each packet starts once the link is free of the ones before it.
unfoldable pub Apart : ℕ → List Slot → Type 0
Apart free [] = Unit
Apart free (x ∷ more) = (free ≤ x.start) × Apart (x.start + x.time) more

Apart-le :
    (free free' : ℕ) (slots : List Slot) → free' ≤ free → Apart free slots → Apart free' slots
unfolding Apart
Apart-le free free' [] le h = tt
Apart-le free free' (x ∷ more) le h = (omega (arith, le, h.0), h.1)

Apart-behind :
    (free : ℕ) (between : List Slot) (x : Slot) (rest : List Slot)
    → Apart free (between ++ x ∷ rest)
    → free + total_time between ≤ x.start
unfolding Apart total_time
Apart-behind free [] x rest h = omega (arith, h.0)
Apart-behind free (y ∷ between) x rest h =
    omega (arith, h.0, Apart-behind (y.start + y.time) between x rest h.1)

Apart-gap :
    (free : ℕ) (before between : List Slot) (x y : Slot) (rest : List Slot)
    → Apart free (before ++ (x ∷ (between ++ (y ∷ rest))))
    → x.start + total_time (x ∷ between) ≤ y.start
unfolding Apart total_time
Apart-gap free [] between x y rest h =
    omega (arith, Apart-behind (x.start + x.time) between y rest h.1)
Apart-gap free (z ∷ before) between x y rest h =
    Apart-gap (z.start + z.time) before between x y rest h.1

All-later :
    (now more : ℕ) (arrivals : List Arrival)
    → All (λ (a : Arrival). a.now ≤ now) arrivals
    → All (λ (a : Arrival). a.now ≤ now + more) arrivals
All-later now more [] h = tt
All-later now more (a ∷ arrivals) h = (omega (arith, h.0), All-later now more arrivals h.1)

module _ {F : Type 0} (tx_time : F → ℕ → ℕ) where
  admit_at-Apart :
      (full : Bool) (n now : ℕ) (s : Shaper F) (slots : List Slot)
      → Apart (admit_at tx_time full (free_from now s) (suc n) now s).0.next_free slots
      → let a : Arrival = record { size = pos (suc n); now = now } in
        Apart s.next_free
          (slot_of tx_time s a (admit_at tx_time full (free_from now s) (suc n) now s).1 slots)
  unfolding Apart
  admit_at-Apart true n now s slots h =
      Apart-le (free_from now s) s.next_free slots (ground arith) h
  admit_at-Apart false n now s slots h =
      let at : now + (free_from now s - now) ≡ free_from now s = ground arith in
      rw (at) (ground arith, h)

  admit-Apart :
      (size : ℤ) (now : ℕ) (s : Shaper F) (slots : List Slot)
      → Apart (admit tx_time size now s).0.next_free slots
      → let a : Arrival = record { size = size; now = now } in
        Apart s.next_free (slot_of tx_time s a (admit tx_time size now s).1 slots)
  unfolding admit
  admit-Apart (pos zero) now s slots h = h
  admit-Apart (negsuc n) now s slots h = h
  admit-Apart (pos (suc n)) now s slots h = admit_at-Apart (is_full now s) n now s slots h

  run-Apart :
      (arrivals : List Arrival) (s : Shaper F) → Apart s.next_free (run tx_time arrivals s).1
  unfolding run Apart
  run-Apart [] s = tt
  run-Apart (a ∷ more) s =
      admit-Apart a.size a.now s (run tx_time more (admit tx_time a.size a.now s).0).1
        (run-Apart more (admit tx_time a.size a.now s).0)

  -- Of any two packets that a shaper admitted, whatever arrived and whatever the clock said, the
  -- later one is released no earlier than after the transmission of the earlier one and of all
  -- that was admitted between them.
  pub run-spaced :
      (arrivals : List Arrival) (s : Shaper F) (before between : List Slot) (x y : Slot)
      (rest : List Slot)
      → (run tx_time arrivals s).1 ≡ before ++ (x ∷ (between ++ (y ∷ rest)))
      → x.start + total_time (x ∷ between) ≤ y.start
  run-spaced arrivals s before between x y rest e =
      Apart-gap s.next_free before between x y rest
        (subst (Apart s.next_free) e (run-Apart arrivals s))

  admit_at-busy :
      (full : Bool) (t n now : ℕ) (s : Shaper F) (slots : List Slot) (after : ℕ)
      → now ≤ t
      → ltb t after ≡ (
          ltb t (admit_at tx_time full (free_from now s) (suc n) now s).0.next_free
          || busy_after t slots)
      → let a : Arrival = record { size = pos (suc n); now = now } in
        ltb t after ≡ (
          ltb t s.next_free
          || busy_after t
              (slot_of tx_time s a (admit_at tx_time full (free_from now s) (suc n) now s).1 slots))
  unfolding busy_after
  admit_at-busy true t n now s slots after le h =
      let same : ltb t (free_from now s) ≡ ltb t s.next_free = ground (arith, le) in
      h ∙ ap (λ b. b || busy_after t slots) same
  admit_at-busy false t n now s slots after le h =
      let at : now + (free_from now s - now) ≡ free_from now s = ground arith in
      let same : ltb t (free_from now s) ≡ ltb t s.next_free = ground (arith, le) in
      rw (at) (ground (arith, h, same))

  admit-busy :
      (t : ℕ) (size : ℤ) (now : ℕ) (s : Shaper F) (slots : List Slot) (after : ℕ)
      → now ≤ t
      → ltb t after ≡ (ltb t (admit tx_time size now s).0.next_free || busy_after t slots)
      → let a : Arrival = record { size = size; now = now } in
        ltb t after ≡ (
          ltb t s.next_free
          || busy_after t (slot_of tx_time s a (admit tx_time size now s).1 slots))
  unfolding admit
  admit-busy t (pos zero) now s slots after le h = h
  admit-busy t (negsuc n) now s slots after le h = h
  admit-busy t (pos (suc n)) now s slots after le h =
      admit_at-busy (is_full now s) t n now s slots after le h

  admit_at-max_backlog :
      (full : Bool) (free size now : ℕ) (s : Shaper F)
      → (admit_at tx_time full free size now s).0.max_backlog ≡ s.max_backlog
  admit_at-max_backlog true free size now s = refl
  admit_at-max_backlog false free size now s = refl

  admit-max_backlog :
      (size : ℤ) (now : ℕ) (s : Shaper F) → (admit tx_time size now s).0.max_backlog ≡ s.max_backlog
  unfolding admit
  admit-max_backlog (pos zero) now s = refl
  admit-max_backlog (negsuc n) now s = refl
  admit-max_backlog (pos (suc n)) now s =
      admit_at-max_backlog (is_full now s) (free_from now s) (suc n) now s

  admit_at-none :
      (full : Bool) (free size now : ℕ) (s : Shaper F)
      → ((admit_at tx_time full free size now s).1 ≡ none) ↔ (full ≡ true)
  admit_at-none true free size now s = (λ h. refl, λ h. refl)
  admit_at-none false free size now s = (λ h. absurd cc, λ h. absurd cc)

  admit-none :
      (n now : ℕ) (s : Shaper F)
      → ((admit tx_time (pos (suc n)) now s).1 ≡ none)
        ↔ (ltb (now + s.max_backlog) s.next_free ≡ true)
  unfolding admit
  admit-none n now s =
      let same : is_full now s ≡ ltb (now + s.max_backlog) s.next_free = ground arith in
      let h : ((admit tx_time (pos (suc n)) now s).1 ≡ none) ↔ (is_full now s ≡ true) =
        admit_at-none (is_full now s) (free_from now s) (suc n) now s in
      (λ e. sym same ∙ h.0 e, λ e. h.1 (same ∙ e))

  run-busy :
      (t : ℕ) (arrivals : List Arrival) (s : Shaper F)
      → All (λ (a : Arrival). a.now ≤ t) arrivals
      → ltb t (run tx_time arrivals s).0.next_free
        ≡ (ltb t s.next_free || busy_after t (run tx_time arrivals s).1)
  unfolding run busy_after
  run-busy t [] s past = ground arith
  run-busy t (a ∷ more) s past =
      admit-busy t a.size a.now s (run tx_time more (admit tx_time a.size a.now s).0).1
        (run tx_time more (admit tx_time a.size a.now s).0).0.next_free past.0
        (run-busy t more (admit tx_time a.size a.now s).0 past.1)

  run-rate :
      (arrivals : List Arrival) (s : Shaper F)
      → (run tx_time arrivals s).0.max_backlog ≡ s.max_backlog
  unfolding run
  run-rate [] s = refl
  run-rate (a ∷ more) s =
      run-rate more (admit tx_time a.size a.now s).0 ∙ admit-max_backlog a.size a.now s

  -- At a new shaper, after any arrivals that the clock put no later than now, a packet with a
  -- size is dropped exactly if some admitted packet will still be on the link when the backlog
  -- has passed.
  pub admit-dropped :
      (rate : F) (max_backlog : ℤ) (arrivals : List Arrival) (n now : ℕ)
      → All (λ (a : Arrival). a.now ≤ now) arrivals
      → let s : Shaper F = new_shaper rate max_backlog in
        let (last, slots) = run tx_time arrivals s in
        ((admit tx_time (pos (suc n)) now last).1 ≡ none)
        ↔ (busy_after (now + s.max_backlog) slots ≡ true)
  unfolding new_shaper
  admit-dropped rate max_backlog arrivals n now past =
      let s : Shaper F = new_shaper rate max_backlog in
      let last : Shaper F = (run tx_time arrivals s).0 in
      ground (
        arith,
        admit-none n now last,
        run-busy (now + s.max_backlog) arrivals s (All-later now s.max_backlog arrivals past),
        run-rate arrivals s,
      )
