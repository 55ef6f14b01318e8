-- ===== src/Coalescer.antt =====
-- backend/services/recompute_coalescer.py: many triggers, one recompute.
mod Defs
unfoldable pub use Defs.*
pub mod Bursts
pub mod Wakeup
pub mod Plans
