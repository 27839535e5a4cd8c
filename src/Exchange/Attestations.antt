-- ===== src/Exchange/Attestations.antt =====
-- Attestations: exchange/routes/attestations.py and the attestation part of exchange/observers.py.
mod Rows
mod Handlers
mod List
mod Sweep
pub mod Advance
pub mod Order
pub mod Lifecycle
unfoldable pub use Rows.*
unfoldable pub use Handlers.*
unfoldable pub use List.*
unfoldable pub use Sweep.*
