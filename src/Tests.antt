-- ===== src/Tests.antt =====
-- Runs on a small company: an applicant, an approver, three trips and a report.
pub mod Data
pub mod Rules
pub mod Trips
pub mod Reports
pub mod Candidates
pub mod Signup
pub mod Office
pub mod Keys
pub mod Logins
pub mod Tokens
pub mod Accounts
pub mod Lists
pub mod Masters
