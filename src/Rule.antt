-- ===== src/Rule.antt =====
-- rule/engine.go: the routing rules.
pub mod Types
pub mod Match
pub mod Compile
pub mod Route
pub mod MinOrd
pub mod Labels
pub mod Best
pub mod Leaf
pub mod AddRule
pub mod Empty
pub mod FirstMatch
pub mod Resolve
pub mod Agree
