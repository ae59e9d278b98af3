-- ===== src/Netfault/Alloc/Tests.antt =====
-- Runs of the address allocator, and the theorems at concrete subnets.
use faultbox.Base.{◌≡◌, refl, true, some, [], ◌∷◌, arith}
use faultbox.Netfault.Alloc.{
  Ip, GatewayAddr, AddrAllocator, Request, new_addr_allocator, ip_for_offset, same_ip, find_key,
  allocate, allocate_all, for_ip,
}
use faultbox.Netfault.Alloc.Attribution.{for_ip-allocate_all}

abbrev gateway : Ip
gateway = record { a = 10; b = 99; c = 0; d = 0 }

abbrev fresh : AddrAllocator
fresh = record { base = gateway; ones = 16; bits = 32; by_key = []; next_id = 2 }

abbrev to_db : Request
to_db = record {
  consumer = "worker";
  service = "db";
  interface = "main";
  port = 5432;
  upstream = "127.0.0.1:5432";
}

abbrev to_cache : Request
to_cache = record {
  consumer = "";
  service = "cache";
  interface = "main";
  port = 6379;
  upstream = "127.0.0.1:6379";
}

abbrev db_addr : GatewayAddr
db_addr = record {
  consumer = "worker";
  service = "db";
  interface = "main";
  ip = record { a = 10; b = 99; c = 0; d = 2 };
  port = 5432;
  upstream = "127.0.0.1:5432";
}

-- In a subnet with more than 16 host bits, two offsets have one address.
one_address_twice : same_ip (ip_for_offset gateway 2) (ip_for_offset gateway 65538) ≡ true
unfolding ip_for_offset
one_address_twice = refl

db_first : (allocate to_db fresh).1 ≡ some db_addr
unfolding allocate find_key ip_for_offset
db_first = refl

for_ip-allocate_all_example :
    for_ip db_addr.ip (allocate_all (to_db ∷ to_cache ∷ []) fresh) ≡ some db_addr
for_ip-allocate_all_example =
    for_ip-allocate_all gateway 16 32 fresh (to_db ∷ to_cache ∷ []) 0 db_addr (omega arith)
      (unfold new_addr_allocator in refl)
      (unfold allocate_all allocate find_key ip_for_offset in refl)
