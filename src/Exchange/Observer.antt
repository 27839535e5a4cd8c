-- ===== src/Exchange/Observer.antt =====
-- `PaymentTimeoutObserver` of exchange/observers.py: the sweep over escrows whose deadlines passed.
mod Defs
pub mod Loops
pub mod Conserves
pub mod Backing
pub mod Frame
pub mod Expires
unfoldable pub use Defs.*
