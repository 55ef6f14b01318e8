-- ===== src/Traffic.antt =====
-- backend/services/traffic/v2_congestion.py: which devices and links are congested, tick by tick.
mod Congestion
unfoldable pub use Congestion.*
pub mod Hysteresis
pub mod Alternation
