-- ===== src/Model.antt =====
-- backend/models_pkg: the rows that the services read. A row keeps the columns that some modelled
-- function reads. Identifiers are strings in the source, which are only compared and sorted: the
-- model numbers them in their lexicographic order. A float column is a number of thousandths.
mod Rows
pub mod Tables
unfoldable pub use Rows.*
