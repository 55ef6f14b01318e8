-- ===== src/Links.antt =====
-- backend/services/status_link.py and link_validator_service.py: the state of a link.
mod Defs
pub mod Viability
pub mod Liveness
unfoldable pub use Defs.*
