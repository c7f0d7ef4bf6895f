-- ===== src/Alert.antt =====
-- pkg/alert: rules over metric snapshots, and the engine that evaluates them.
pub mod Rule
pub mod State
pub mod Check
pub mod Engine
pub mod Cooldown
pub mod Consecutive
