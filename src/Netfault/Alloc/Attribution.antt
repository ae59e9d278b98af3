-- ===== src/Netfault/Alloc/Attribution.antt =====
-- internal/netfault/alloc.go: to which triple `forIP` attributes an address.
use native.Mathlib.Nat.{pow-le-pow_right}
use mathlib.Core.Path.{subst}
use faultbox.Base.{
  ℕ, zero, suc, ◌+◌, ◌-◌, ◌^◌, ◌≤◌, ◌<◌, ◌≡◌, refl, ◌∙◌, sym, ap, true, false, Option, none, some,
  List, [], ◌∷◌, ◌++◌, ltb, arith, Bool-cases, inl, inr, get_elem?,
}
use faultbox.Netfault.Alloc.{
  Ip, GatewayAddr, AddrAllocator, Request, new_addr_allocator, ip_for_offset, find_key, address_of,
  allocate_new, allocate, same_ip, find_ip, for_ip, allocate_all,
}

-- The addresses in their order are those of consecutive offsets from `i` on, up to `next`.
unfoldable Numbered : Ip → ℕ → ℕ → List GatewayAddr → Type 0
Numbered base i next [] = i ≡ next
Numbered base i next (ga ∷ gas) = (ga.ip ≡ ip_for_offset base i) × Numbered base (i + 1) next gas

Numbered-le :
    (base : Ip) (i next : ℕ) (gas : List GatewayAddr) → Numbered base i next gas → i ≤ next
unfolding Numbered
Numbered-le base i next [] h = omega (arith, h)
Numbered-le base i next (ga ∷ gas) h = omega (arith, Numbered-le base (i + 1) next gas h.1)

Numbered-snoc :
    (base : Ip) (i next : ℕ) (gas : List GatewayAddr) (new : GatewayAddr)
    → new.ip ≡ ip_for_offset base next
    → Numbered base i next gas
    → Numbered base i (next + 1) (gas ++ new ∷ [])
unfolding Numbered
Numbered-snoc base i next [] new e h = (e ∙ ap (ip_for_offset base) (sym h), omega (arith, h))
Numbered-snoc base i next (ga ∷ gas) new e h = (h.0, Numbered-snoc base (i + 1) next gas new e h.1)

-- Below 2 ^ 16, two offsets have two addresses.
ip_for_offset-apart :
    (base : Ip) (i j : ℕ)
    → i < j
    → j < 65536
    → same_ip (ip_for_offset base i) (ip_for_offset base j) ≡ false
unfolding ip_for_offset
ip_for_offset-apart base i j lt bound = ground arith

same_ip_refl : (ip : Ip) → same_ip ip ip ≡ true
same_ip_refl ip = ground arith

find_ip-Numbered :
    (base : Ip) (i next : ℕ) (gas : List GatewayAddr) (k : ℕ) (ga : GatewayAddr)
    → next ≤ 65536
    → Numbered base i next gas
    → get_elem? gas k ≡ some ga
    → (find_ip ga.ip gas ≡ some ga) × (ga.ip ≡ ip_for_offset base (i + k)) × (i + k < next)
unfolding Numbered find_ip
find_ip-Numbered base i next [] k ga bound h e = absurd cc
find_ip-Numbered base i next (x ∷ gas) zero ga bound h e =
    let same : x ≡ ga = cc in
    let self : same_ip x.ip ga.ip ≡ true = ap (λ y. same_ip y.ip ga.ip) same ∙ same_ip_refl ga.ip in
    (
      rw (self) e,
      ap (λ y. y.ip) (sym same) ∙ (h.0 ∙ ap (ip_for_offset base) (omega arith)),
      omega (arith, Numbered-le base (i + 1) next gas h.1),
    )
find_ip-Numbered base i next (x ∷ gas) (suc k) ga bound h e =
    let (found, ip, below) = find_ip-Numbered base (i + 1) next gas k ga bound h.1 e in
    let apart : same_ip x.ip ga.ip ≡ false =
      ap (λ y. same_ip y ga.ip) h.0
      ∙ (ap (same_ip (ip_for_offset base i)) ip
          ∙ ip_for_offset-apart base i (i + 1 + k) (omega arith) (omega (arith, below, bound))) in
    (rw (apart) found, ip ∙ ap (ip_for_offset base) (omega arith), omega (arith, below))

-- What the allocator keeps: the addresses count on from offset 2, within the hosts of the subnet.
Counted : AddrAllocator → Type 0
Counted al =
    Numbered al.base 2 al.next_id al.by_key × (al.next_id ≤ 2 ^ (al.bits - al.ones) - 2 + 2)

allocate-Counted :
    (r : Request) (al : AddrAllocator)
    → Counted al
    → Counted (allocate r al).0
      × ((allocate r al).0.bits ≡ al.bits)
      × ((allocate r al).0.ones ≡ al.ones)
unfolding Counted allocate
allocate-Counted r al inv = case (find_key r.consumer r.service r.interface al.by_key)
  where
    case :
        (existing : Option GatewayAddr)
        → Counted (allocate_new existing r al).0
          × ((allocate_new existing r al).0.bits ≡ al.bits)
          × ((allocate_new existing r al).0.ones ≡ al.ones)
    case (some ga) = (inv, refl, refl)
    case none = elim (Bool-cases (ltb (2 ^ (al.bits - al.ones) - 2) al.next_id)) [
      | inl full ↦ rw (full) ((inv, refl, refl))
      | inr free ↦
          let room : al.next_id + 1 ≤ 2 ^ (al.bits - al.ones) - 2 + 2 = ground arith in
          rw (free) (
            (
              (Numbered-snoc al.base 2 al.next_id al.by_key (address_of al r) refl inv.0, room),
              refl,
              refl,
            ))
    ]

allocate_all-Counted :
    (rs : List Request) (al : AddrAllocator)
    → Counted al
    → Counted (allocate_all rs al)
      × ((allocate_all rs al).bits ≡ al.bits)
      × ((allocate_all rs al).ones ≡ al.ones)
unfolding allocate_all
allocate_all-Counted [] al inv = (inv, refl, refl)
allocate_all-Counted (r ∷ rs) al inv =
    let (inv', b, o) = allocate-Counted r al inv in
    let (inv'', b', o') = allocate_all-Counted rs (allocate r al).0 inv' in (inv'', b' ∙ b, o' ∙ o)

new-Counted :
    (base : Ip) (ones bits : ℕ) (al : AddrAllocator)
    → new_addr_allocator base ones bits ≡ some al
    → Counted al
unfolding new_addr_allocator Counted Numbered
new-Counted base ones bits al new = elim (Bool-cases (ltb (bits - ones) 8)) [
  | inl tiny ↦ absurd (ground arith)
  | inr fits ↦
      let first : AddrAllocator = record {
        base = base;
        ones = ones;
        bits = bits;
        by_key = [];
        next_id = 2;
      } in
      let same : first ≡ al = ground arith in subst Counted same ((refl, omega arith))
]

pow_bounded : (d : ℕ) → d ≤ 16 → 2 ^ d ≤ 65536
pow_bounded d h = pow-le-pow_right (omega arith) h

-- In a subnet with at most 16 host bits, whatever was requested of a new allocator, each address
-- that it has given out is found again by its IP.
pub for_ip-allocate_all :
    (base : Ip) (ones bits : ℕ) (al : AddrAllocator) (rs : List Request) (k : ℕ) (ga : GatewayAddr)
    → bits - ones ≤ 16
    → new_addr_allocator base ones bits ≡ some al
    → get_elem? (allocate_all rs al).by_key k ≡ some ga
    → for_ip ga.ip (allocate_all rs al) ≡ some ga
unfolding new_addr_allocator for_ip Counted Numbered
for_ip-allocate_all base ones bits al rs k ga small new e =
    let fresh : Counted al = new-Counted base ones bits al new in
    let (inv, b, o) = allocate_all-Counted rs al fresh in
    let end = allocate_all rs al in
    let d : end.bits - end.ones ≡ bits - ones = ground (arith, b, o, new) in
    let room : end.next_id ≤ 65536 =
      omega (arith, inv.1, pow_bounded (end.bits - end.ones) (omega (arith, d, small))) in
    (find_ip-Numbered end.base 2 end.next_id end.by_key k ga room inv.0 e).0
