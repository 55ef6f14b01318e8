-- ===== src/Splitters.antt =====
-- backend/services/splitter_service.py: the ports of a splitter and what lies behind them.
mod Defs
unfoldable pub use Defs.*
pub mod Ports
pub mod Behind
pub mod Reaching
