-- ===== src/App.antt =====
-- hermes_vps_app/: the operator application on top of the control core.
pub mod Preview
pub mod Remediation
pub mod Telegram
pub mod Shim
pub mod Shell
pub mod Config
pub mod Startup
pub mod Errors
pub mod Workflows
pub mod Snapshot
pub mod Samples
