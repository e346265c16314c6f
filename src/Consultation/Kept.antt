-- ===== src/Consultation/Kept.antt =====
-- A pending booking keeps its slot, along every write of the consultation tables.
pub mod Base
pub mod Guests
pub mod Hosts
pub mod Reach
