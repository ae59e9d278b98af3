-- ===== src/Netfault/Flags/Tests.antt =====
-- Tests of ParseFlagSpec and ParseDirection of internal/netfault.
use faultbox.Base.{◌≡◌, refl, none, some, [], ◌∷◌, codes, arith}
use faultbox.Base.Split.{trim_space, split_n}
use faultbox.Netfault.PacketView.{dir_c2s, dir_s2c}
use faultbox.Netfault.Flags.{
  direction_text, parse_direction, masks, unknown_flag, conflicting, flag_names, parse_flag_name,
  flag_parts, parse_flag_spec,
}
use faultbox.Netfault.Flags.Spec.{header_bits, joined, parse_flag_spec-flag_names}

specs :
    (parse_flag_spec header_bits (codes "psh, ACK ,! syn,") ≡ masks 24 2)
    × (parse_flag_spec header_bits (codes "  ") ≡ masks 0 0)
    × (parse_flag_spec header_bits (codes "ACK,!ack") ≡ conflicting)
    × (parse_flag_spec header_bits (codes "SYN,FYN,ABC") ≡ unknown_flag (codes "FYN"))
unfolding parse_flag_spec parse_flag_name flag_parts trim_space split_n
specs = (refl, refl, refl, refl)

directions :
    (parse_direction (direction_text dir_c2s) ≡ some dir_c2s)
    × (parse_direction (direction_text dir_s2c) ≡ some dir_s2c)
    × (parse_direction "both" ≡ none)
unfolding parse_direction direction_text
directions = (refl, refl, refl)

parse_flag_spec-flag_names_example :
    (parse_flag_spec header_bits (joined [] (flag_names header_bits 18)) ≡ masks 18 0)
    × (parse_flag_spec header_bits (joined (33 ∷ []) (flag_names header_bits 18)) ≡ masks 0 18)
parse_flag_spec-flag_names_example = parse_flag_spec-flag_names header_bits 18 refl (omega arith)
