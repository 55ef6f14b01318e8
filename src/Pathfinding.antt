-- ===== src/Pathfinding.antt =====
-- backend/services/pathfinding.py: the optical and the logical graph, and the versions of the store.
-- The graph library is an interface.
pub mod Networkx
mod Shortest
unfoldable pub use Shortest.*
mod Defs
unfoldable pub use Defs.*
pub mod Heap
pub mod Collapse
pub mod Optical
pub mod Logical
pub mod Store
