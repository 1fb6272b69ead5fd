-- ===== src/Verbs.antt =====
-- The verbs package: engine/verbs/*.go.
pub mod Join
pub mod Action
pub mod Control
pub mod Waits
pub mod Spawn
pub mod Fan
pub mod Foreach
pub mod Collections
pub mod Inputs
pub mod Decision
pub mod Licensing
