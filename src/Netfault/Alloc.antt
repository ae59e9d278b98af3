-- ===== src/Netfault/Alloc.antt =====
-- internal/netfault/alloc.go: the addresses that the gateway gives to (consumer, service,
-- interface) triples. An address is its four bytes, where the source prints them; the subnet
-- comes parsed and masked. The key joins three names with NUL bytes, which names do not have: it
-- is the triple itself.
pub mod Attribution
pub mod Stable
pub mod Tests
use faultbox.Base.{
  ℕ, ◌+◌, ◌-◌, ◌/◌, ◌%◌, ◌^◌, Bool, true, false, ◌&&◌, Option, none, some, List, [], ◌∷◌, ◌++◌,
  String, str_eq, ltb, ◌==◌, if◌then◌else◌,
}

pub record Ip : Type 0 where
  pub a : ℕ
  pub b : ℕ
  pub c : ℕ
  pub d : ℕ

pub record GatewayAddr : Type 0 where
  pub consumer : String
  pub service : String
  pub interface : String
  pub ip : Ip
  pub port : ℕ
  pub upstream : String

-- `byKey` as the list of its values, in the order in which they were added.
pub record AddrAllocator : Type 0 where
  pub base : Ip
  pub ones : ℕ
  pub bits : ℕ
  pub by_key : List GatewayAddr
  pub next_id : ℕ

pub record Request : Type 0 where
  pub consumer : String
  pub service : String
  pub interface : String
  pub port : ℕ
  pub upstream : String

unfoldable pub new_addr_allocator : Ip → ℕ → ℕ → Option AddrAllocator
new_addr_allocator base ones bits =
    if ltb (bits - ones) 8
    then none
    else some (record { base = base; ones = ones; bits = bits; by_key = []; next_id = 2 })

-- `byte(n & 0xFF)` and `byte((n >> 8) & 0xFF)`
unfoldable pub ip_for_offset : Ip → ℕ → Ip
ip_for_offset base n = record base { c = n / 256 % 256; d = n % 256 }

abbrev pub same_key : String → String → String → GatewayAddr → Bool
same_key consumer service interface ga =
    str_eq ga.consumer consumer && (str_eq ga.service service && str_eq ga.interface interface)

unfoldable pub find_key : String → String → String → List GatewayAddr → Option GatewayAddr
find_key consumer service interface [] = none
find_key consumer service interface (ga ∷ gas) =
    let rest = find_key consumer service interface gas in
    if same_key consumer service interface ga then some ga else rest

abbrev address_of : AddrAllocator → Request → GatewayAddr
address_of al r = record {
  consumer = r.consumer;
  service = r.service;
  interface = r.interface;
  ip = ip_for_offset al.base al.next_id;
  port = r.port;
  upstream = r.upstream;
}

abbrev allocate_new :
    Option GatewayAddr → Request → AddrAllocator → AddrAllocator × Option GatewayAddr
allocate_new (some existing) r al = (al, some existing)
allocate_new none r al = if ltb (2 ^ (al.bits - al.ones) - 2) al.next_id then (al, none) else (
  record al { next_id = al.next_id + 1; by_key = al.by_key ++ address_of al r ∷ [] },
  some (address_of al r),
)

-- `none` is the error of an exhausted subnet.
unfoldable pub allocate : Request → AddrAllocator → AddrAllocator × Option GatewayAddr
allocate r al = allocate_new (find_key r.consumer r.service r.interface al.by_key) r al

unfoldable pub lookup_addr : String → String → String → AddrAllocator → Option GatewayAddr
lookup_addr consumer service interface al = find_key consumer service interface al.by_key

abbrev pub same_ip : Ip → Ip → Bool
same_ip x y = x.a == y.a && (x.b == y.b && (x.c == y.c && x.d == y.d))

unfoldable pub find_ip : Ip → List GatewayAddr → Option GatewayAddr
find_ip ip [] = none
find_ip ip (ga ∷ gas) = let rest = find_ip ip gas in if same_ip ga.ip ip then some ga else rest

-- The range over the map stops at any entry with the address; here at the oldest.
unfoldable pub for_ip : Ip → AddrAllocator → Option GatewayAddr
for_ip ip al = find_ip ip al.by_key

unfoldable pub allocate_all : List Request → AddrAllocator → AddrAllocator
allocate_all [] al = al
allocate_all (r ∷ rs) al = allocate_all rs (allocate r al).0
