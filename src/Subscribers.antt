-- ===== src/Subscribers.antt =====
-- backend/services/subscriber_model.py: which subscribers are counted, and at which port.
mod Defs
mod Resolve
unfoldable pub use Defs.*
unfoldable pub use Resolve.*
pub mod Anchors
pub mod Decisions
pub mod Counts
pub mod Trees
pub mod Claims
pub mod Candidates
pub mod Exclusive
pub mod Access
