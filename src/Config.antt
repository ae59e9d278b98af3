-- ===== src/Config.antt =====
-- internal/config: the topology of a system under test.
pub mod Order
