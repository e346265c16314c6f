-- ===== src/Consultation/Mails.antt =====
-- The mails of consultations: src/lib/consultation/service.ts. A mail is inserted once per key: the
-- upsert of a key that is there changes nothing.
use spottex_test.Common.{
  ℕ, ◌-◌, ◌+◌, Bool, true, false, ◌&&◌, none, some, List, [], ◌∷◌, ◌++◌, ◌==◌, ltb, find_first,
  update_where, if◌then◌else◌,
}
use spottex_test.Jobs.Model.{JobStatus, pending, canceled}
use spottex_test.Consultation.Model.{
  NoticeKey, verify_key, confirmed_key, host_notice_key, reminder_key, meet_ready_key, Notice,
  notice_key_eq, has_notice_key,
}

-- queueConsultationEmail with a client: `upsert({ where: key, update: {}, create })`.
unfoldable pub queue_consultation_email : NoticeKey → ℕ → ℕ → List Notice → List Notice
unfolding find_first notice_key_eq
queue_consultation_email key to_email send_at ms = elim (find_first (has_notice_key key) ms) [
  | some m ↦ ms
  | none ↦ ms ++ record { key = key; to_email = to_email; status = pending; send_at = send_at } ∷ []
]

-- queueBookingVerification: without `sendAt` the column's default is the time of the insert.
unfoldable pub queue_booking_verification : ℕ → ℕ → ℕ → List Notice → List Notice
unfolding queue_consultation_email
queue_booking_verification now booking_id email =
    queue_consultation_email (verify_key booking_id) email now

-- queueBookingConfirmation.
unfoldable pub queue_booking_confirmation : ℕ → ℕ → ℕ → ℕ → List Notice → List Notice
unfolding queue_consultation_email
queue_booking_confirmation now booking_id email start_utc =
    queue_consultation_email (confirmed_key booking_id start_utc) email now

-- queueHostBookingNotice.
unfoldable pub queue_host_booking_notice : ℕ → ℕ → ℕ → ℕ → List Notice → List Notice
unfolding queue_consultation_email
queue_host_booking_notice now booking_id host_email start_utc =
    queue_consultation_email (host_notice_key booking_id start_utc) host_email now

abbrev reminder_lead_ms : ℕ
reminder_lead_ms = 86400000

-- `sendAt`: a day before the start, or now.
unfoldable pub reminder_send_at : ℕ → ℕ → ℕ
reminder_send_at now start_utc =
    if ltb (now + reminder_lead_ms) start_utc then start_utc - reminder_lead_ms else now

-- queueConsultationReminder.
unfoldable pub queue_consultation_reminder : ℕ → ℕ → ℕ → ℕ → List Notice → List Notice
unfolding queue_consultation_email reminder_send_at
queue_consultation_reminder now booking_id email start_utc =
    queue_consultation_email (reminder_key booking_id start_utc) email
      (reminder_send_at now start_utc)

-- queueConsultationMeetReady.
unfoldable pub queue_consultation_meet_ready : ℕ → ℕ → ℕ → ℕ → List Notice → List Notice
unfolding queue_consultation_email
queue_consultation_meet_ready now booking_id revision email =
    queue_consultation_email (meet_ready_key booking_id revision) email now

abbrev pub is_pending_mail : JobStatus → Bool
is_pending_mail pending = true
is_pending_mail _ = false

-- Whether a key starts with `consultation:<booking>:reminder:`.
abbrev pub is_reminder_of : ℕ → NoticeKey → Bool
is_reminder_of booking_id (reminder_key b t) = b == booking_id
is_reminder_of booking_id _ = false

-- cancelPendingConsultationReminders.
unfoldable pub cancel_pending_consultation_reminders : ℕ → List Notice → List Notice
unfolding update_where
cancel_pending_consultation_reminders booking_id =
    update_where (λ m. is_reminder_of booking_id m.key && is_pending_mail m.status)
      (λ m. record m { status = canceled })
