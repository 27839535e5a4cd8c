-- ===== src/Compliance.antt =====
-- The compliance log (compliance/).
pub mod Merkle
