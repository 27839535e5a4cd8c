-- ===== src/Exchange/Ledger.antt =====
-- Updates of the session's objects, and the quantities by which the books are checked.
mod Defs
pub mod Net
pub mod Gap
pub mod Solvent
unfoldable pub use Defs.*
