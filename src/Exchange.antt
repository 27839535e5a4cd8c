-- ===== src/Exchange.antt =====
-- The exchange service (exchange/): its data, its ledger primitives and its request handlers.
pub mod Errors
pub mod Models
pub mod Config
pub mod Ledger
pub mod Fees
pub mod Reputation
pub mod Guard
pub mod Kya
pub mod Observer
pub mod Provenance
pub mod Settlement
pub mod Attestations
pub mod Principals
pub mod Identity
pub mod Accounts
pub mod KyaAdmin
pub mod Metrics
