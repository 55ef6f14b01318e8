-- ===== src/Events.antt =====
-- backend/services/event_store.py and simulation_event_engine.py: the stored events, and the events
-- that are replayed into projections.
mod Defs
unfoldable pub use Defs.*
pub mod Sequences
