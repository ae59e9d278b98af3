-- ===== src/Netfault/Shape/Link/Apart.antt =====
-- internal/netfault/endpoint.go: the two directions of a link.
use faultbox.Base.{
  ℕ, ◌≡◌, refl, Bool, true, false, not, Option, none, some, List, [], ◌∷◌, if◌then◌else◌, ap, ◌∙◌,
}
use faultbox.Base.Int.{ℤ}
use faultbox.Netfault.PacketView.{Direction, dir_c2s, dir_s2c}
use faultbox.Netfault.Shape.{Shaper, admit}
use faultbox.Netfault.Shape.Link.{
  Link, Paced, release_now, shaper_of, paced_by, paced_with, put_shaper, paced,
}

-- A packet of one direction, and what the clock says.
pub record Travel : Type 0 where
  pub to_server : Bool
  pub size : ℤ
  pub now : ℕ

abbrev pub direction_of : Bool → Direction
direction_of true = dir_c2s
direction_of false = dir_s2c

abbrev pub same_way : Bool → Bool → Bool
same_way true b = b
same_way false true = false
same_way false false = true

unfoldable pub going : Bool → List Travel → List Travel
going way [] = []
going way (p ∷ more) =
    let rest = going way more in if same_way way p.to_server then p ∷ rest else rest

-- What becomes of the packets of one direction when packets of both arrive.
abbrev pub note : Bool → Bool → Paced → List Paced → List Paced
note way to_server what rest = if same_way way to_server then what ∷ rest else rest

module _ {F : Type 0} (tx_time : F → ℕ → ℕ) where
  unfoldable pub outcomes : Bool → List Travel → Link F → List Paced
  outcomes way [] link = []
  outcomes way (p ∷ more) link =
      let (link', what) = paced tx_time (direction_of p.to_server) p.size p.now link in
      note way p.to_server what (outcomes way more link')

  abbrev pub outcome_with : Travel → Option (Shaper F) → Option (Shaper F) × Paced
  outcome_with p none = (none, release_now)
  outcome_with p (some s) =
      let (s', wait) = admit tx_time p.size p.now s in (some s', paced_by wait)

  -- The packets of a direction that has the link to itself.
  unfoldable pub alone : List Travel → Option (Shaper F) → List Paced
  alone [] s = []
  alone (p ∷ more) s = let (s', what) = outcome_with p s in what ∷ alone more s'

  own-first :
      (way : Bool) (size : ℤ) (now : ℕ) (o : Option (Shaper F)) (link : Link F) (more : List Travel)
      → shaper_of (direction_of way) link ≡ o
      → ((l : Link F)
          → outcomes way more l ≡ alone (going way more) (shaper_of (direction_of way) l))
      → let p : Travel = record { to_server = way; size = size; now = now } in
        let (link', what) = paced_with tx_time (direction_of way) size now o link in
        what ∷ outcomes way more link' ≡ alone (p ∷ going way more) o
  unfolding alone
  own-first way size now none link more e ih =
      ap (λ ps. release_now ∷ ps) (ih link ∙ ap (alone (going way more)) e)
  own-first true size now (some s) link more e ih =
      let (s', wait) = admit tx_time size now s in
      ap (λ ps. paced_by wait ∷ ps) (ih (put_shaper dir_c2s s' link))
  own-first false size now (some s) link more e ih =
      let (s', wait) = admit tx_time size now s in
      ap (λ ps. paced_by wait ∷ ps) (ih (put_shaper dir_s2c s' link))

  other-first :
      (way : Bool) (size : ℤ) (now : ℕ) (o : Option (Shaper F)) (link : Link F)
      → shaper_of (direction_of way) (paced_with tx_time (direction_of (not way)) size now o link).0
        ≡ shaper_of (direction_of way) link
  other-first way size now none link = refl
  other-first true size now (some s) link = refl
  other-first false size now (some s) link = refl

  outcomes-cons :
      (way to_server : Bool) (size : ℤ) (now : ℕ) (link : Link F) (more : List Travel)
      → ((l : Link F)
          → outcomes way more l ≡ alone (going way more) (shaper_of (direction_of way) l))
      → let p : Travel = record { to_server = to_server; size = size; now = now } in
        outcomes way (p ∷ more) link
        ≡ alone (going way (p ∷ more)) (shaper_of (direction_of way) link)
  unfolding outcomes going paced
  outcomes-cons true true size now link more ih =
      own-first true size now link.shape_c2s link more refl ih
  outcomes-cons false false size now link more ih =
      own-first false size now link.shape_s2c link more refl ih
  outcomes-cons true false size now link more ih =
      ih (paced tx_time dir_s2c size now link).0
      ∙ ap (alone (going true more)) (other-first true size now link.shape_s2c link)
  outcomes-cons false true size now link more ih =
      ih (paced tx_time dir_c2s size now link).0
      ∙ ap (alone (going false more)) (other-first false size now link.shape_c2s link)

  -- The two directions of a link do not disturb each other: what becomes of the packets of one
  -- direction, and their waits, is what it would be without the packets of the other.
  pub outcomes-alone :
      (way : Bool) (packets : List Travel) (link : Link F)
      → outcomes way packets link ≡ alone (going way packets) (shaper_of (direction_of way) link)
  unfolding outcomes alone going
  outcomes-alone way [] link = refl
  outcomes-alone way (p ∷ more) link =
      outcomes-cons way p.to_server p.size p.now link more (outcomes-alone way more)
