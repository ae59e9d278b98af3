-- ===== src/Seccomp.antt =====
-- internal/seccomp: the filter that hands chosen syscalls to the supervisor.
pub mod Filter
