-- ===== src/Netfault/Flags/Spec.antt =====
-- internal/netfault/match.go (ParseFlagSpec) on what FlagNames of packetview.go writes.
use faultbox.Base.{
  ℕ, zero, suc, ◌<◌, ◌≡◌, refl, Bool, true, false, ◌&&◌, List, [], ◌∷◌, ◌++◌, Bytes, ◌==◌, arith,
  and-both, sym, ap, ◌∙◌, Bool-cases, ==_iff, inl, inr,
}
use faultbox.Base.Split.{trim_space, split_n}
use faultbox.Netfault.Flags.{
  TcpFlags, FlagSpec, masks, unknown_flag, conflicting, flag_names, parse_flag_name, flag_parts,
  parse_flag_spec,
}

-- The bits of the header, in its order.
abbrev pub header_bits : TcpFlags
header_bits = record { fin = 1; syn = 2; rst = 4; psh = 8; ack = 16; urg = 32; ece = 64; cwr = 128 }

-- The names with a comma between, each behind the mark.
abbrev pub joined : Bytes → List Bytes → Bytes
joined mark [] = []
joined mark (name ∷ []) = mark ++ name
joined mark (name ∷ next ∷ names) = mark ++ (name ++ (44 ∷ joined mark (next ∷ names)))

abbrev is_masks : ℕ → ℕ → FlagSpec → Bool
is_masks set clear (masks s c) = s == set && c == clear
is_masks set clear (unknown_flag p) = false
is_masks set clear conflicting = false

both_ways : ℕ → Bool
unfolding parse_flag_spec flag_names parse_flag_name flag_parts trim_space split_n
both_ways flags =
    is_masks flags 0 (parse_flag_spec header_bits (joined [] (flag_names header_bits flags)))
    && is_masks 0 flags
        (parse_flag_spec header_bits (joined (33 ∷ []) (flag_names header_bits flags)))

all_below : (ℕ → Bool) → ℕ → Bool
all_below f zero = true
all_below f (suc n) = f n && all_below f n

every_byte : all_below both_ways 256 ≡ true
unfolding all_below both_ways
every_byte = refl

below-all : (f : ℕ → Bool) (n i : ℕ) → all_below f n ≡ true → i < n → f i ≡ true
unfolding all_below
below-all f zero i h lt = absurd (omega (arith, lt))
below-all f (suc n) i h lt =
    let both = and-both (f n) (all_below f n) h in
    elim (Bool-cases (i == n)) [
      | inl last ↦ ap f ((==_iff i n).0 last) ∙ both.0
      | inr other ↦ below-all f n i both.1 (ground (arith, other, lt))
    ]

is_masks-path : (set clear : ℕ) (r : FlagSpec) → is_masks set clear r ≡ true → r ≡ masks set clear
is_masks-path set clear (masks s c) h =
    let first : s ≡ set = ground (arith, h) in let second : c ≡ clear = ground (arith, h) in cc
is_masks-path set clear (unknown_flag p) h = absurd cc
is_masks-path set clear conflicting h = absurd cc

-- Where the flags are the bits of the TCP header, in its order, a specification that lists the
-- names of a byte's flags, with commas between, is read back as that byte: as what must be set, or
-- with a `!` before each name as what must be clear.
pub parse_flag_spec-flag_names :
    (tcp : TcpFlags) (flags : ℕ)
    → header_bits ≡ tcp
    → flags < 256
    → (parse_flag_spec tcp (joined [] (flag_names tcp flags)) ≡ masks flags 0)
      × (parse_flag_spec tcp (joined (33 ∷ []) (flag_names tcp flags)) ≡ masks 0 flags)
unfolding both_ways
parse_flag_spec-flag_names tcp flags standard lt =
    let plain = λ (t : TcpFlags). parse_flag_spec t (joined [] (flag_names t flags)) in
    let marked = λ (t : TcpFlags). parse_flag_spec t (joined (33 ∷ []) (flag_names t flags)) in
    let both =
      and-both (is_masks flags 0 (plain header_bits)) (is_masks 0 flags (marked header_bits))
        (below-all both_ways 256 flags every_byte lt) in
    (
      sym (ap plain standard) ∙ is_masks-path flags 0 (plain header_bits) both.0,
      sym (ap marked standard) ∙ is_masks-path 0 flags (marked header_bits) both.1,
    )
