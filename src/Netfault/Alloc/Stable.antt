-- ===== src/Netfault/Alloc/Stable.antt =====
-- internal/netfault/alloc.go: what later requests leave of an address that was given out.
use faultbox.Base.{◌≡◌, true, none, some, List, [], ◌∷◌, ◌++◌, String, eq_refl, arith}
use faultbox.Netfault.Alloc.{
  GatewayAddr, AddrAllocator, Request, same_key, find_key, address_of, allocate, lookup_addr,
  allocate_all,
}

find_key-append :
    (consumer service interface : String) (gas : List GatewayAddr) (new ga : GatewayAddr)
    → find_key consumer service interface gas ≡ some ga
    → find_key consumer service interface (gas ++ new ∷ []) ≡ some ga
unfolding find_key
find_key-append consumer service interface [] new ga h = absurd cc
find_key-append consumer service interface (x ∷ gas) new ga h =
    ground (arith, find_key-append consumer service interface gas new ga)

find_key-snoc :
    (consumer service interface : String) (gas : List GatewayAddr) (new : GatewayAddr)
    → find_key consumer service interface gas ≡ none
    → same_key consumer service interface new ≡ true
    → find_key consumer service interface (gas ++ new ∷ []) ≡ some new
unfolding find_key
find_key-snoc consumer service interface [] new h same = ground arith
find_key-snoc consumer service interface (x ∷ gas) new h same =
    ground (arith, find_key-snoc consumer service interface gas new)

-- A later request leaves what a triple finds as it is.
allocate-keeps :
    (consumer service interface : String) (r : Request) (al : AddrAllocator) (ga : GatewayAddr)
    → lookup_addr consumer service interface al ≡ some ga
    → lookup_addr consumer service interface (allocate r al).0 ≡ some ga
unfolding lookup_addr allocate
allocate-keeps consumer service interface r al ga h =
    ground (arith, find_key-append consumer service interface al.by_key (address_of al r) ga h)

allocate_all-keeps :
    (consumer service interface : String) (rs : List Request) (al : AddrAllocator)
    (ga : GatewayAddr)
    → lookup_addr consumer service interface al ≡ some ga
    → lookup_addr consumer service interface (allocate_all rs al) ≡ some ga
unfolding allocate_all
allocate_all-keeps consumer service interface [] al ga h = h
allocate_all-keeps consumer service interface (r ∷ rs) al ga h =
    allocate_all-keeps consumer service interface rs (allocate r al).0 ga
      (allocate-keeps consumer service interface r al ga h)

own_key :
    (al : AddrAllocator) (r : Request)
    → same_key r.consumer r.service r.interface (address_of al r) ≡ true
own_key al r = ground (arith, eq_refl r.consumer, eq_refl r.service, eq_refl r.interface)

allocate-found :
    (r : Request) (al : AddrAllocator) (ga : GatewayAddr)
    → (allocate r al).1 ≡ some ga
    → lookup_addr r.consumer r.service r.interface (allocate r al).0 ≡ some ga
unfolding lookup_addr allocate
allocate-found r al ga h = ground (
  arith,
  find_key-snoc r.consumer r.service r.interface al.by_key (address_of al r),
  own_key al r,
)

-- An address that was given to a triple is what the triple looks up after any further requests.
pub allocate-lookup :
    (r : Request) (al : AddrAllocator) (rs : List Request) (ga : GatewayAddr)
    → (allocate r al).1 ≡ some ga
    → lookup_addr r.consumer r.service r.interface (allocate_all rs (allocate r al).0) ≡ some ga
allocate-lookup r al rs ga h =
    allocate_all-keeps r.consumer r.service r.interface rs (allocate r al).0 ga
      (allocate-found r al ga h)
