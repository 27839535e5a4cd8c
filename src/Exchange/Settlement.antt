-- ===== src/Exchange/Settlement.antt =====
-- The request handlers of exchange/routes/settlement.py.
pub mod Common
pub mod Deposit
pub mod Instant
pub mod Create
pub mod Batch
pub mod Deliver
pub mod Evidence
pub mod Partial
pub mod Release
pub mod Refund
pub mod Dispute
pub mod Resolve
pub mod Final
pub mod Solvency
pub mod History
pub mod Queries
