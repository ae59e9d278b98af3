-- ===== src/Netfault/Flags.antt =====
-- internal/netfault/packetview.go and match.go: the spelling of directions and of TCP flags. The
-- bits of the flags are constants of the network stack, and an argument. Letters and white space
-- are those of ASCII.
pub mod Spec
mod Tests
use Prim.Native.Nat.{bit_and, bit_or}
use faultbox.Base.{
  ℕ, Bool, true, false, not, Option, none, some, List, [], ◌∷◌, String, str_eq, ◌==◌, if◌then◌else◌,
  Bytes, codes, length,
}
use faultbox.Base.Split.{trim_space, upper, split_n, bytes_eq, no_bytes}
use faultbox.Netfault.PacketView.{Direction, dir_c2s, dir_s2c, dir_both}

unfoldable pub direction_text : Direction → String
direction_text dir_c2s = "c2s"
direction_text dir_s2c = "s2c"
direction_text dir_both = "s2c"

unfoldable pub parse_direction : String → Option Direction
parse_direction s =
    if str_eq s "c2s" then some dir_c2s else if str_eq s "s2c" then some dir_s2c else none

pub record TcpFlags : Type 0 where
  pub fin : ℕ
  pub syn : ℕ
  pub rst : ℕ
  pub psh : ℕ
  pub ack : ℕ
  pub urg : ℕ
  pub ece : ℕ
  pub cwr : ℕ

-- What a flag specification asks for: an unknown flag, one that is both required and forbidden, or
-- the masks of what is set and what is clear.
pub data FlagSpec : Type 0 where
  masks : ℕ → ℕ → FlagSpec
  unknown_flag : Bytes → FlagSpec
  conflicting : FlagSpec

module _ (tcp : TcpFlags) where
  abbrev pub flag_table : List (ℕ × Bytes)
  flag_table =
      (tcp.fin, codes "FIN")
      ∷ (tcp.syn, codes "SYN")
      ∷ (tcp.rst, codes "RST")
      ∷ (tcp.psh, codes "PSH")
      ∷ (tcp.ack, codes "ACK")
      ∷ (tcp.urg, codes "URG")
      ∷ (tcp.ece, codes "ECE")
      ∷ (tcp.cwr, codes "CWR")
      ∷ []

  abbrev find_flag : List (ℕ × Bytes) → Bytes → Option ℕ
  find_flag [] up = none
  find_flag ((bit, name) ∷ more) up =
      let rest = find_flag more up in if bytes_eq name up then some bit else rest

  unfoldable pub parse_flag_name : Bytes → Option ℕ
  parse_flag_name s = find_flag flag_table (upper (trim_space s))

  abbrev names_in : List (ℕ × Bytes) → ℕ → List Bytes
  names_in [] flags = []
  names_in ((bit, name) ∷ more) flags =
      let rest = names_in more flags in if bit_and flags bit == 0 then rest else name ∷ rest

  unfoldable pub flag_names : ℕ → List Bytes
  flag_names flags = names_in flag_table flags

  abbrev pub with_bit : Bool → Option ℕ → Bytes → ℕ → ℕ → (ℕ → ℕ → FlagSpec) → FlagSpec
  with_bit negate none p set clear next = unknown_flag p
  with_bit true (some bit) p set clear next = next set (bit_or clear bit)
  with_bit false (some bit) p set clear next = next (bit_or set bit) clear

  -- One part of the specification, without the white space around it.
  abbrev pub flag_part : Bytes → ℕ → ℕ → (ℕ → ℕ → FlagSpec) → FlagSpec
  flag_part [] set clear next = next set clear
  flag_part (c ∷ p) set clear next =
      if c == b'!'
      then with_bit true (parse_flag_name (trim_space p)) (trim_space p) set clear next
      else with_bit false (parse_flag_name (c ∷ p)) (c ∷ p) set clear next

  abbrev checked : ℕ → ℕ → FlagSpec
  checked set clear = if bit_and set clear == 0 then masks set clear else conflicting

  unfoldable pub flag_parts : List Bytes → ℕ → ℕ → FlagSpec
  flag_parts [] set clear = checked set clear
  flag_parts (part ∷ parts) set clear = flag_part (trim_space part) set clear (flag_parts parts)

  unfoldable pub parse_flag_spec : Bytes → FlagSpec
  parse_flag_spec spec =
      if no_bytes (trim_space spec)
      then masks 0 0
      else flag_parts (split_n (length spec) 44 spec) 0 0
