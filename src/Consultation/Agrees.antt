-- ===== src/Consultation/Agrees.antt =====
-- The agreement of slots and bookings, along every write of the consultation tables.
pub mod Base
pub mod Bookings
pub mod Offered
pub mod Kept
pub mod Desk
pub mod Synced
pub mod Reach
pub mod Moved
pub mod Managed
