-- ===== src/Energy.antt =====
-- src/lib/energy: the durable deactivation of inverters.
pub mod Deactivation
pub mod Concluded
mod Examples
