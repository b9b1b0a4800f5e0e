-- ===== src/Admin.antt =====
-- The administration of the master data (backend/app/services/admin).
pub mod Common
pub mod Users
pub mod Departments
pub mod Centers
pub mod Cards
pub mod Codes
