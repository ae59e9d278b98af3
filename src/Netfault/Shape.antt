-- ===== src/Netfault/Shape.antt =====
-- internal/netfault/shape.go: the link shaper behind bandwidth(). Times and durations are
-- nanoseconds, a time that was never set is 0. The time that a packet takes at a rate is float64
-- arithmetic and an argument. The mutex makes `admit` one step.
pub mod Slots
pub mod Accounts
pub mod Paced
pub mod Link
pub mod Rate
mod Tests
use faultbox.Base.{
  ℕ, zero, suc, ◌+◌, ◌-◌, Bool, true, false, Option, none, some, List, [], ◌∷◌, ltb, if◌then◌else◌,
}
use faultbox.Base.Int.{ℤ, pos, negsuc}

abbrev pub default_shaper_backlog : ℕ
default_shaper_backlog = 250_000_000

pub record Shaper (F : Type 0) : Type 0 where
  pub bytes_per_sec : F
  pub max_backlog : ℕ
  pub next_free : ℕ
  pub admitted : ℕ
  pub dropped : ℕ
  pub backlog_peak_nanos : ℕ

pub record ShaperStats : Type 0 where
  pub admitted : ℕ
  pub dropped : ℕ
  pub peak_backlog : ℕ

unfoldable pub backlog_or_default : ℤ → ℕ
backlog_or_default (pos zero) = default_shaper_backlog
backlog_or_default (pos (suc n)) = suc n
backlog_or_default (negsuc n) = default_shaper_backlog

module _ {F : Type 0} where
  unfoldable pub new_shaper : F → ℤ → Shaper F
  unfolding backlog_or_default
  new_shaper rate max_backlog = record {
    bytes_per_sec = rate;
    max_backlog = backlog_or_default max_backlog;
    next_free = 0;
    admitted = 0;
    dropped = 0;
    backlog_peak_nanos = 0;
  }

  abbrev pub stats : Shaper F → ShaperStats
  stats s = record {
    admitted = s.admitted;
    dropped = s.dropped;
    peak_backlog = s.backlog_peak_nanos;
  }

  -- When the link is free for a packet that arrives now.
  abbrev pub free_from : ℕ → Shaper F → ℕ
  free_from now s = if ltb s.next_free now then now else s.next_free

  abbrev pub is_full : ℕ → Shaper F → Bool
  is_full now s = ltb s.max_backlog (free_from now s - now)

module _ {F : Type 0} (tx_time : F → ℕ → ℕ) where
  -- With the queue full or not, for a link that is free from then on.
  abbrev pub admit_at : Bool → ℕ → ℕ → ℕ → Shaper F → Shaper F × Option ℕ
  admit_at true free size now s = (record s { next_free = free; dropped = s.dropped + 1 }, none)
  admit_at false free size now s =
      let backlog = free - now in
      (
        record s {
          next_free = free + tx_time s.bytes_per_sec size;
          admitted = s.admitted + 1;
          backlog_peak_nanos =
              if ltb s.backlog_peak_nanos backlog then backlog else s.backlog_peak_nanos;
        },
        some backlog,
      )

  abbrev pub admit_size : ℕ → ℕ → Shaper F → Shaper F × Option ℕ
  admit_size size now s = admit_at (is_full now s) (free_from now s) size now s

  -- The wait of a packet that is admitted, `none` for one that is dropped.
  unfoldable pub admit : ℤ → ℕ → Shaper F → Shaper F × Option ℕ
  admit (pos zero) now s = (s, some 0)
  admit (negsuc n) now s = (s, some 0)
  admit (pos (suc n)) now s = admit_size (suc n) now s
