-- ===== src/Outbound.antt =====
-- outbound/group: outbounds that choose among others.
pub mod Group
