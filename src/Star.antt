-- ===== src/Star.antt =====
-- internal/star: the plan tree that a spec fans out to, and the verdicts of its assertions.
pub mod Leaf
pub mod ChooseAxes
pub mod Expand
pub mod Interleavings
pub mod EventLog
pub mod Temporal
pub mod Vacuity
pub mod Tests
