-- ===== src/Core.antt =====
-- hermes_control_core: the action graph engine and what it stands on.
pub mod Interfaces
pub mod Actions
pub mod Session
pub mod Runner
pub mod Engine
pub mod Samples
