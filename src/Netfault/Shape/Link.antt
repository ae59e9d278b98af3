-- ===== src/Netfault/Shape/Link.antt =====
-- internal/netfault/endpoint.go: the shapers of a link, one per direction, and its MTU. A packet
-- that `paced` handles is released, deferred by a wait, or dropped. A packet that the stopped
-- defer queue does not take is released at once, which is the queue's answer (Defer).
pub mod Apart
use faultbox.Base.{ℕ, zero, suc, ◌≤◌, Option, none, some, List, [], ◌∷◌, if◌then◌else◌, leb, map}
use faultbox.Base.Int.{ℤ}
use faultbox.Base.Float.{Float}
use faultbox.Netfault.PacketView.{Direction, dir_c2s, dir_s2c, dir_both}
use faultbox.Netfault.Shape.{Shaper, ShaperStats, new_shaper, stats, admit}

pub record Link (F : Type 0) : Type 0 where
  pub shape_c2s : Option (Shaper F)
  pub shape_s2c : Option (Shaper F)
  pub mtu_override : ℕ

pub data Paced : Type 0 where
  release_now : Paced
  deferred_by : ℕ → Paced
  queue_full : Paced

-- The MTU of the wrapped endpoint is an argument.
abbrev mtu_or : ℕ → ℕ → ℕ
mtu_or lower zero = lower
mtu_or lower (suc n) = suc n

abbrev pub paced_by : Option ℕ → Paced
paced_by none = queue_full
paced_by (some zero) = release_now
paced_by (some (suc n)) = deferred_by (suc n)

module _ {F : Type 0} where
  module _ ⦃f : Float F⦄ where
    abbrev shaper_for : F → ℤ → Option (Shaper F)
    shaper_for rate max_backlog =
        if f.le rate f.zero_f then none else some (new_shaper rate max_backlog)

    unfoldable pub set_bandwidth : Direction → F → ℤ → Link F → Link F
    set_bandwidth dir_c2s rate max_backlog link = record link {
      shape_c2s = shaper_for rate max_backlog;
    }
    set_bandwidth dir_s2c rate max_backlog link = record link {
      shape_s2c = shaper_for rate max_backlog;
    }
    set_bandwidth dir_both rate max_backlog link = record link {
      shape_c2s = shaper_for rate max_backlog;
      shape_s2c = shaper_for rate max_backlog;
    }

  abbrev pub set_mtu : ℕ → Link F → Link F
  set_mtu mtu link = record link { mtu_override = mtu }

  unfoldable pub mtu : ℕ → Link F → ℕ
  mtu lower link = mtu_or lower link.mtu_override

  abbrev pub shaper_of : Direction → Link F → Option (Shaper F)
  shaper_of dir_c2s link = link.shape_c2s
  shaper_of dir_s2c link = link.shape_s2c
  shaper_of dir_both link = link.shape_s2c

  abbrev pub put_shaper : Direction → Shaper F → Link F → Link F
  put_shaper dir_c2s s link = record link { shape_c2s = some s }
  put_shaper dir_s2c s link = record link { shape_s2c = some s }
  put_shaper dir_both s link = record link { shape_s2c = some s }

  abbrev stats_of : Option (Shaper F) → Option ShaperStats
  stats_of none = none
  stats_of (some s) = some (stats s)

  unfoldable pub shaper_stats_for : Direction → Link F → Option ShaperStats
  shaper_stats_for dir link = stats_of (shaper_of dir link)

  unfoldable pub clear_shapers : Link F → Link F
  clear_shapers link = record { shape_c2s = none; shape_s2c = none; mtu_override = 0 }

module _ {F : Type 0} (tx_time : F → ℕ → ℕ) where
  abbrev pub paced_with : Direction → ℤ → ℕ → Option (Shaper F) → Link F → Link F × Paced
  paced_with dir size now none link = (link, release_now)
  paced_with dir size now (some s) link =
      let (s', wait) = admit tx_time size now s in (put_shaper dir s' link, paced_by wait)

  unfoldable pub paced : Direction → ℤ → ℕ → Link F → Link F × Paced
  paced dir size now link = paced_with dir size now (shaper_of dir link) link
