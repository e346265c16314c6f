-- ===== src/Consultation/Agrees/Reach.antt =====
-- Slots and bookings agree on every desk that the writes reach.
use spottex_test.Consultation.Model.{Desk}
