-- ===== src/Exchange/Accounts.antt =====
-- exchange/routes/accounts.py and exchange/auth.py: who may sign in, registration, keys, claims of
-- gateways, agent cards and the operator's actions.
pub mod Rows
pub mod Auth
pub mod Register
pub mod Keys
pub mod Claims
pub mod Admin
pub mod Cards
pub mod Directory
pub mod Access
pub mod Lockout
