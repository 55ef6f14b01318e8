-- ===== src/Upstream.antt =====
-- backend/services/dependency_resolver_trace.py: the layer 3 path from a device to the backbone.
mod Defs
pub mod Passable
mod Hops
pub mod Trace
unfoldable pub use Defs.*
