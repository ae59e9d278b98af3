-- ===== src/Netfault/Shape/Slots.antt =====
-- internal/netfault/shape.go: the link time that a shaper gives out over any arrivals.
use faultbox.Base.{
  ℕ, zero, suc, ◌+◌, Bool, true, false, Option, none, some, List, [], ◌∷◌, if◌then◌else◌,
}
use faultbox.Base.Int.{ℤ, pos, negsuc}
use faultbox.Netfault.Shape.{Shaper, admit}

-- A packet, and what the clock says under the lock.
pub record Arrival : Type 0 where
  pub size : ℤ
  pub now : ℕ

-- Link time that is reserved for a packet.
pub record Slot : Type 0 where
  pub wait : ℕ
  pub start : ℕ
  pub time : ℕ

abbrev pub has_size : ℤ → Bool
has_size (pos zero) = false
has_size (pos (suc n)) = true
has_size (negsuc n) = false

abbrev pub size_of : ℤ → ℕ
size_of (pos n) = n
size_of (negsuc n) = 0

unfoldable pub with_size : List Arrival → ℕ
with_size [] = 0
with_size (a ∷ more) = (if has_size a.size then 1 else 0) + with_size more

module _ {F : Type 0} (tx_time : F → ℕ → ℕ) where
  abbrev pub slot_of : Shaper F → Arrival → Option ℕ → List Slot → List Slot
  slot_of s a none slots = slots
  slot_of s a (some wait) slots =
      if has_size a.size
      then record {
        wait = wait;
        start = a.now + wait;
        time = tx_time s.bytes_per_sec (size_of a.size);
      }
        ∷ slots
      else slots

  unfoldable pub run : List Arrival → Shaper F → Shaper F × List Slot
  unfolding admit
  run [] s = (s, [])
  run (a ∷ more) s =
      let (s', wait) = admit tx_time a.size a.now s in
      let (last, slots) = run more s' in (last, slot_of s a wait slots)
