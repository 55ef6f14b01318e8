-- ===== src/LinkRules.antt =====
-- backend/link_rules.py and backend/constants/link_types.py: which pairs of devices may be linked.
-- The rules are searched in order, and the first matcher that holds decides.
mod Defs
pub mod Constants
pub mod Verdicts
pub mod Media
unfoldable pub use Defs.*
