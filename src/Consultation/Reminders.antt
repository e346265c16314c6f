-- ===== src/Consultation/Reminders.antt =====
-- The reminders of a booking that is moved: cancelPendingConsultationReminders and
-- queueConsultationReminder of src/lib/consultation/service.ts, as the reschedule route calls them.
use spottex_test.Common.{
  ℕ, ◌≡◌, refl, ◌∙◌, true, ◌&&◌, Option, some, List, [], ◌∷◌, ◌++◌, find_first, arith, inl, inr,
  Option-cases, if◌then◌else◌, find_first_updated, find_first_holds,
}
use spottex_test.Jobs.Model.{canceled}
use spottex_test.Consultation.Model.{
  NoticeKey, reminder_key, verify_key, confirmed_key, host_notice_key, meet_ready_key, Notice, Slot,
  Booking, Outbox, notice_key_eq, has_notice_key,
}
use spottex_test.Consultation.Mails.{
  queue_consultation_email, queue_booking_confirmation, queue_consultation_reminder,
  cancel_pending_consultation_reminders, is_pending_mail, is_reminder_of, reminder_send_at,
}
use spottex_test.Consultation.Reschedule.{announce_move}

abbrev pub notice_at : NoticeKey → List Notice → Option Notice
notice_at k ms = find_first (has_notice_key k) ms

abbrev pub cancel_mail : Notice → Notice
cancel_mail m = record m { status = canceled }

-- What the cancellation of reminders makes of one.
abbrev after_cancel : Notice → Notice
after_cancel m = if is_pending_mail m.status then cancel_mail m else m

found_appended :
    (k : NoticeKey) (ms : List Notice) (x m : Notice)
    → notice_at k ms ≡ some m
    → notice_at k (ms ++ x ∷ []) ≡ some m
unfolding find_first
found_appended k [] x m h = ground arith
found_appended k (y ∷ ys) x m h = ground (arith, found_appended k ys x m)

-- A mail that is queued stays as it is when any mail is queued.
notice_at-queue :
    (k key : NoticeKey) (email at : ℕ) (ms : List Notice) (m : Notice)
    → notice_at k ms ≡ some m
    → notice_at k (queue_consultation_email key email at ms) ≡ some m
unfolding queue_consultation_email
notice_at-queue k key email at ms m h = elim (Option-cases (notice_at key ms)) [
  | inl e ↦ rw (queue_consultation_email, e) (found_appended k ms _ m h)
  | inr (x, e) ↦ rw (queue_consultation_email, e) h
]

reminder_named :
    (b t : ℕ) (k : NoticeKey)
    → notice_key_eq k (reminder_key b t) ≡ true
    → is_reminder_of b k ≡ true
unfolding notice_key_eq
reminder_named b t (reminder_key c u) h = ground arith
reminder_named b t (verify_key c) h = cc
reminder_named b t (confirmed_key c u) h = cc
reminder_named b t (host_notice_key c u) h = cc
reminder_named b t (meet_ready_key c u) h = cc

notice_at-cancel :
    (b t : ℕ) (ms : List Notice) (m : Notice)
    → notice_at (reminder_key b t) ms ≡ some m
    → notice_at (reminder_key b t) (cancel_pending_consultation_reminders b ms)
      ≡ some (after_cancel m)
unfolding cancel_pending_consultation_reminders
notice_at-cancel b t ms m h =
    let named =
      reminder_named b t m.key (find_first_holds (has_notice_key (reminder_key b t)) ms m h) in
    find_first_updated (has_notice_key (reminder_key b t))
      (λ x. is_reminder_of b x.key && is_pending_mail x.status) cancel_mail (λ x. refl) ms m h
    ∙ (rw named refl)

notice_at-move :
    (now t : ℕ) (b : Booking) (next : Slot) (o : Outbox) (m : Notice)
    → notice_at (reminder_key b.id t) o.notices ≡ some m
    → notice_at (reminder_key b.id t) (announce_move now b next o).notices ≡ some (after_cancel m)
unfolding announce_move queue_booking_confirmation queue_consultation_reminder
notice_at-move now t b next o m h =
    let kept = cancel_pending_consultation_reminders b.id o.notices in
    let confirmed = queue_booking_confirmation now b.id b.guest_email next.start_utc kept in
    notice_at-queue (reminder_key b.id t) (reminder_key b.id next.start_utc) b.guest_email
      (reminder_send_at now next.start_utc) confirmed (after_cancel m)
      (notice_at-queue (reminder_key b.id t) (confirmed_key b.id next.start_utc) b.guest_email now
        kept (after_cancel m) (notice_at-cancel b.id t o.notices m h))

-- A booking that is moved away from a slot and back to it, or to another slot of the same start,
-- gets no reminder: the reminder that was pending for that start is canceled by the first move, and
-- queueing it again by the second leaves it canceled.
pub announce_move-announce_move :
    (now later : ℕ) (b : Booking) (away home : Slot) (o : Outbox) (m : Notice)
    → notice_at (reminder_key b.id home.start_utc) o.notices ≡ some m
    → is_pending_mail m.status ≡ true
    → notice_at
        (reminder_key b.id home.start_utc)
        (announce_move later b home (announce_move now b away o)).notices
      ≡ some (cancel_mail m)
announce_move-announce_move now later b away home o m h waits =
    let moved = notice_at-move now home.start_utc b away o m h in
    let back =
      notice_at-move later home.start_utc b home (announce_move now b away o) (cancel_mail m) in
    back (rw (moved, waits) refl)
