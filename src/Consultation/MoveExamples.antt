-- ===== src/Consultation/MoveExamples.antt =====
-- A confirmed booking that is canceled, and one that is moved away and back.
use spottex_test.Consultation.Calendar.Google.{Google, GoogleError, refresh_failed}
use spottex_test.Consultation.Calendar.Worker.{execute_calendar_job}
use spottex_test.Consultation.Calendar.Concluded.{taken}
use spottex_test.Common.{◌≡◌, refl, none, some, [], ◌∷◌, true, ok, inl, find_first, Result, throws}
use spottex_test.Jobs.Model.{pending}
use spottex_test.Consultation.Model.{
  notice_key_eq, Booking, booked, confirmed, create_key, creates, CreatePayload, CalendarJob, Desk,
  derived, delete_key, Outbox, Slot, reminder_key, Notice,
}
use spottex_test.Consultation.Cancel.{cancel_read}
use spottex_test.Consultation.Reschedule.{announce_move}
use spottex_test.Consultation.Withdrawn.{QueuedWork, deletion, cancel_read-deletes}
use spottex_test.Consultation.Reminders.{notice_at, cancel_mail, announce_move-announce_move}

abbrev home_slot : Slot
home_slot = record {
  id = 4;
  host = 2;
  start_utc = 90000000;
  end_utc = 91800000;
  status = booked;
  hold_expires_at = none;
  google_calendar_id = none;
  google_event_id = none;
  meet_url = none;
}

abbrev other_slot : Slot
other_slot = record home_slot { id = 5; start_utc = 93600000; end_utc = 95400000 }

abbrev booking : Booking
booking = record {
  id = 50;
  slot_id = 4;
  guest_email = 7;
  status = confirmed;
  verify_token_hash = 70;
  manage_token_hash = 71;
  manage_token_expires_at = 700000000;
  email_verified_at = some 1500;
  calendar_revision = 1;
  consent_at = 1000;
}

abbrev payload : CreatePayload
payload = record {
  booking_id = 50;
  slot_id = 4;
  revision = 1;
  calendar_id = some 5;
  auto_meet = true;
}

abbrev job : CalendarJob
job = record {
  id = 1;
  key = create_key 50 1;
  work = creates payload;
  status = pending;
  run_at = 1500;
  attempts = 0;
  locked_at = none;
  completed_at = none;
  last_error = none;
}

abbrev reminder : Notice
reminder = record {
  key = reminder_key 50 90000000;
  to_email = 7;
  status = pending;
  send_at = 3600000;
}

abbrev outbox : Outbox
outbox = record { jobs = job ∷ []; notices = reminder ∷ []; next_job = 2 }

abbrev desk : Desk
desk = record {
  slots = home_slot ∷ [];
  bookings = booking ∷ [];
  calendars = [];
  hosts = [];
  outbox = outbox;
  next_slot = 6;
  next_booking = 51;
}

abbrev desk_of : {Err : Type 0} {A : Type 0} → Result Err (A × Desk) → Desk
desk_of (throws err) = desk
desk_of (ok (ids, d)) = d

abbrev after_cancel : Desk
unfolding cancel_read
after_cancel = desk_of (cancel_read 2000 booking home_slot desk)

cancel_read-deletes_example :
    QueuedWork 2000
      (delete_key 50 1 5 (derived 50 1))
      (deletion booking home_slot 5)
      outbox
      after_cancel.outbox
unfolding cancel_read
cancel_read-deletes_example =
    cancel_read-deletes 2000 5 0 booking home_slot desk after_cancel (2 ∷ []) refl refl
      (inl (refl, refl))
      (record {
        job = job;
        payload = payload;
        queued = refl;
        work = refl;
        booking = refl;
        revision = refl;
        target = refl;
      })
      refl

announce_move-announce_move_example :
    notice_at
      (reminder_key 50 90000000)
      (announce_move 3000 booking home_slot (announce_move 2000 booking other_slot outbox)).notices
    ≡ some (cancel_mail reminder)
unfolding find_first notice_key_eq
announce_move-announce_move_example =
    announce_move-announce_move 2000 3000 booking other_slot home_slot outbox reminder refl refl

-- Google answers no request.
abbrev silent : Google
silent = record {
  refresh = λ t. refresh_failed;
  events = λ t ids a b. none;
  post_event = λ t r. none;
  read_event = λ t c e. none;
  delete_event = λ t c e. none;
  revoke = λ t. none;
}

abbrev execution : Result GoogleError Desk
unfolding execute_calendar_job
execution = execute_calendar_job silent 2000 (creates payload) (taken 2000 job desk)
