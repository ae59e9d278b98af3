-- ===== src/Proxy.antt =====
-- internal/proxy: the proxies between the services of a system under test.
pub mod SqlMatch
