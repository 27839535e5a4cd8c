-- ===== src/Shim.antt =====
-- The security shim (shim/), which charges proxied requests against an escrow.
pub mod Gate
