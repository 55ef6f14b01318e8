-- ===== src/Provisioning.antt =====
-- backend/provisioning.py: which devices may be provisioned, and what provisioning changes.
mod Defs
unfoldable pub use Defs.*
pub mod Outcomes
pub mod Runs
