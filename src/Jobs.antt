-- ===== src/Jobs.antt =====
-- The durable jobs and mails of the `jobs` schema.
pub mod Model
pub mod Outbox
pub mod Attempts
mod Examples
