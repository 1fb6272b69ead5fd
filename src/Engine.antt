-- ===== src/Engine.antt =====
-- The engine package: engine/*.go.
pub mod Steady
pub mod Keeps
pub mod Place
pub mod Descent
pub mod Retry
pub mod Compensation
pub mod Hooks
pub mod Resume
pub mod Failure
pub mod Advance
pub mod Cancel
pub mod Registry
pub mod Locks
pub mod Dispatchers
pub mod Validation
