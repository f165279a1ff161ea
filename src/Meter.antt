-- ===== src/Meter.antt =====
-- meter/limits.go and meter/meter.go: what limits a user's connections, and what counts them.
pub mod Counter
pub mod IpGate
pub mod Gate
pub mod Cell
pub mod Registry
pub mod Traffic
