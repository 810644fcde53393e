-- ===== src/Engine.antt =====
-- src/engine.rs: the rules of rules.json evaluated over the parsed packets.
pub mod Text
pub mod Address
pub mod Float
pub mod Config
pub mod State
pub mod Rules
pub mod Connections
pub mod Rates
pub mod Expire
pub mod Process
pub mod Tests
