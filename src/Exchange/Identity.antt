-- ===== src/Exchange/Identity.antt =====
-- exchange/identity: the registry of trusted issuers, the verification of agent cards and the
-- monitor of their expiry.
pub mod Issuers
pub mod Verifier
pub mod Monitor
