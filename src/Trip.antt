-- ===== src/Trip.antt =====
-- Trips.
pub mod Status
pub mod Rules
pub mod View
pub mod Listing
pub mod Flow
pub mod Edit
pub mod Invariant
