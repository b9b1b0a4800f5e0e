-- ===== src/Expense.antt =====
-- Expense reports.
pub mod Rules
pub mod View
pub mod Listing
pub mod Candidates
pub mod Edit
pub mod Items
pub mod Flow
pub mod Totals
pub mod Settled
