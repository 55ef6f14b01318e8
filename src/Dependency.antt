-- ===== src/Dependency.antt =====
-- backend/services/dependency_resolver_core.py and provisioning_dependency.py: the upstream check over
-- the logical graph, and the parents that provisioning asks for.
mod Defs
unfoldable pub use Defs.*
mod Access
unfoldable pub use Access.*
pub mod Upstreams
pub mod Memo
pub mod Parents
pub mod Tolerance
