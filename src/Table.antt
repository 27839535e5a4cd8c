-- ===== src/Table.antt =====
-- A database table as rows under their primary key, in the order of insertion.
mod Defs
pub mod Laws
pub mod Keys
unfoldable pub use Defs.*
