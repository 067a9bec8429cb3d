-- ===== src/Wizard.antt =====
-- scripts/: the framework-free core of the configure wizard.
pub mod Store
pub mod State
pub mod Flow
pub mod Task
pub mod Registry
pub mod Seed
pub mod Samples
