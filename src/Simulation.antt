-- ===== src/Simulation.antt =====
-- backend/services/simulation_event_engine.py: the event log that is built from the tables, and its
-- replay.
mod Defs
unfoldable pub use Defs.*
mod Replay
unfoldable pub use Replay.*
pub mod Parts
pub mod Numbers
pub mod Restores
pub mod Analytics
