-- ===== src/Dns.antt =====
-- dns: the resolver's parts.
pub mod FakeIp
