-- ===== src/Tests.antt =====
-- Concrete databases and runs: the theorems at work on data.
pub mod Data
mod Books
mod Rules
mod Lifecycle
mod Merkle
mod Trust
mod Services
mod Accounts
mod Identity
