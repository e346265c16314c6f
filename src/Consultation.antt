-- ===== src/Consultation.antt =====
-- The bookings of consultations: src/lib/consultation and src/app/api/consultations.
pub mod Model
pub mod Mails
pub mod Calendar
pub mod Holding
pub mod Verify
pub mod Cancel
pub mod Reschedule
pub mod Slots
pub mod Agrees
pub mod Steps
pub mod Lapsed
pub mod Removal
pub mod Reminders
pub mod Diagram
pub mod Withdrawn
pub mod Held
mod Examples
mod MoveExamples
pub mod Kept
