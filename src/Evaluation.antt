-- ===== src/Evaluation.antt =====
-- backend/services/status_service.py, status_service_passive.py, status_recompute.py and
-- status_propagation_store.py: the status of a device, the transitions that a recompute reports, and
-- the snapshot that it leaves.
mod Defs
unfoldable pub use Defs.*
pub mod Verdict
pub mod Recompute
pub mod Transitions
pub mod Snapshot
pub mod Dirty
pub mod Reports
pub mod Silence
pub mod Passive
pub mod PassiveSearch
pub mod PassiveUp
pub mod Answers
