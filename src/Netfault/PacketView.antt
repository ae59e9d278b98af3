-- ===== src/Netfault/PacketView.antt =====
-- internal/netfault/packetview.go: what a rule sees of a packet.
use faultbox.Base.{ℕ, Bool, true, false, String, Bytes, ◌==◌}
use faultbox.Base.Int.{ℤ}
use Prim.Native.Nat.{bit_and}

pub data Direction : Type 0 where
  dir_c2s dir_s2c dir_both : Direction

abbrev pub same_direction : Direction → Direction → Bool
same_direction dir_c2s dir_c2s = true
same_direction dir_s2c dir_s2c = true
same_direction dir_both dir_both = true
same_direction _ _ = false

pub record PacketView : Type 0 where
  pub proto : String
  pub dir : Direction
  pub src_ip : String
  pub dst_ip : String
  pub src_port : ℕ
  pub dst_port : ℕ
  pub payload_len : ℤ
  pub payload : Bytes
  pub flags : ℕ
  pub seq : ℕ
  pub ack : ℕ
  pub window : ℕ
  pub index : ℤ
  pub flow : String

unfoldable pub has_flags : PacketView → ℕ → Bool
has_flags p mask = bit_and p.flags mask == mask
