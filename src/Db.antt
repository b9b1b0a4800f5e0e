-- ===== src/Db.antt =====
-- The database: generic tables, the rows of the models, and sessions.
pub mod Table
pub mod Rows
pub mod Session
