-- ===== src/Netfault/Match.antt =====
-- internal/netfault/match.go: the declarative predicate of a rule, with its Starlark refinement.
-- A predicate is a function of the packet; the calls of it are counted, as `onWhereEval` does.
use Prim.Native.Nat.{bit_and}
use faultbox.Base.{
  ℕ, ◌+◌, ◌≡◌, Bool, true, false, not, ◌&&◌, Option, none, some, [], ◌∷◌, String, str_eq, Bytes,
  has_prefix, contains_bytes, ◌==◌, if◌then◌else◌, arith,
}
use faultbox.Base.Int.{ℤ, leb_ℤ, eqb_ℤ}
use faultbox.Netfault.PacketView.{Direction, same_direction, PacketView}

pub record Match : Type 0 where
  pub dir : Option Direction
  pub proto : String
  pub flags_set : ℕ
  pub flags_clear : ℕ
  pub port : ℕ
  pub dst_ip : String
  pub len : ℤ
  pub has_len : Bool
  pub len_gt : ℤ
  pub has_len_gt : Bool
  pub len_lt : ℤ
  pub has_len_lt : Bool
  pub payload_prefix : Bytes
  pub payload_contains : Bytes
  pub where_fn : Option (PacketView → Bool)

abbrev is_nil : Bytes → Bool
is_nil [] = true
is_nil (c ∷ s) = false

abbrev wrong_direction : Option Direction → Direction → Bool
wrong_direction none d = false
wrong_direction (some m) d = not (same_direction m d)

unfoldable pub matches_declarative : Match → PacketView → Bool
matches_declarative m p =
    if wrong_direction m.dir p.dir
    then false
    else if not (str_eq m.proto "") && not (str_eq m.proto p.proto)
    then false
    else if not (m.flags_set == 0) && not (bit_and p.flags m.flags_set == m.flags_set)
    then false
    else if not (m.flags_clear == 0) && not (bit_and p.flags m.flags_clear == 0)
    then false
    else if not (m.port == 0) && not (p.dst_port == m.port)
    then false
    else if not (str_eq m.dst_ip "") && not (str_eq p.dst_ip m.dst_ip)
    then false
    else if m.has_len && not (eqb_ℤ p.payload_len m.len)
    then false
    else if m.has_len_gt && leb_ℤ p.payload_len m.len_gt
    then false
    else if m.has_len_lt && leb_ℤ m.len_lt p.payload_len
    then false
    else if not (is_nil m.payload_prefix) && not (has_prefix p.payload m.payload_prefix)
    then false
    else if not (is_nil m.payload_contains) && not (contains_bytes p.payload m.payload_contains)
    then false
    else true

abbrev where_allows : Option (PacketView → Bool) → PacketView → ℕ → Bool × ℕ
where_allows none p evals = (true, evals)
where_allows (some f) p evals = (f p, evals + 1)

-- The answer, with the number of Starlark calls made so far.
unfoldable pub matches : Match → PacketView → ℕ → Bool × ℕ
matches m p evals =
    if not (matches_declarative m p) then (false, evals) else where_allows m.where_fn p evals

unfoldable pub uses_where : Match → Bool
uses_where m = elim m.where_fn [ none ↦ false | some f ↦ true ]

-- What a match asks of a packet, with no calls counted.
abbrev pub where_ok : Option (PacketView → Bool) → PacketView → Bool
where_ok none p = true
where_ok (some f) p = f p

abbrev pub hits : Match → PacketView → Bool
hits m p = matches_declarative m p && where_ok m.where_fn p

-- The answer is the declarative predicate and the refinement, and the refinement is called at most
-- once, for a rule that has one and only for a packet that the declarative predicate let through.
pub matches-hits :
    (m : Match) (p : PacketView) (evals : ℕ)
    → ((matches m p evals).0 ≡ hits m p)
      × ((matches m p evals).1 ≡ evals + (if matches_declarative m p && uses_where m then 1 else 0))
unfolding matches uses_where
matches-hits m p evals = ground arith
