-- ===== src/Propagation.antt =====
-- backend/services/status_recompute.py, status_propagation_store.py, and the incremental part of
-- status_service.py: which devices are reachable from the anchors, and which a change affects.
mod Graph
mod Defs
mod Queue
pub mod Reach
pub mod Component
pub mod Chain
pub mod Routes
pub mod Causes
unfoldable pub use Graph.*
unfoldable pub use Defs.*
