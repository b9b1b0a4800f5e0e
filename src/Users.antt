-- ===== src/Users.antt =====
-- Accounts.
pub mod Status
pub mod Signup
