-- ===== src/Netfault.antt =====
-- internal/netfault: packet faults on the gateway's datapath.
pub mod PacketView
pub mod Flags
pub mod Match
pub mod Rule
pub mod Trigger
pub mod Validate
pub mod Decide
pub mod Reorder
pub mod Defer
pub mod Alloc
pub mod Shape
pub mod Tests
