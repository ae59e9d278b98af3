-- ===== src/Engine.antt =====
-- internal/engine: the supervisor that answers intercepted syscalls.
pub mod Fault
pub mod Hold
pub mod Tests
