-- ===== src/Consultation/Calendar.antt =====
-- The synchronisation with Google Calendar: src/lib/consultation.
pub mod State
pub mod Queue
pub mod Google
pub mod Worker
pub mod Disconnect
pub mod Backoff
pub mod OauthState
pub mod Roundtrip
pub mod Epoch
pub mod Overtaken
pub mod Concluded
mod Examples
