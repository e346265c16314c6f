-- ===== src/Consultation/Diagram.antt =====
-- The states of one slot: every write on the tables moves it along an edge of a diagram, or leaves it.
pub mod Edges
pub mod Guests
pub mod Hosts
pub mod Synced
pub mod Refines
