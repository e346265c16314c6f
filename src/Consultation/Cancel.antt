-- ===== src/Consultation/Cancel.antt =====
-- The cancellation of a booking by its guest: src/app/api/consultations/cancel/route.ts after its
-- input and rate checks. One request has one time.
use spottex_test.Common.{
  ℕ, suc, ◌+◌, Bool, not, ◌&&◌, ◌||◌, Option, none, some, List, [], ◌∷◌, ◌==◌, leb, if◌then◌else◌,
  find_first, update_where, count_where, row, length, Result, ok, throws, ◌>>=◌, or_else,
}
use spottex_test.Consultation.Model.{
  open_slot, canceled_booking, EventId, derived, Slot, Booking, Desk, is_booked, is_confirmed,
  is_canceled_booking,
}
use spottex_test.Consultation.Mails.{cancel_pending_consultation_reminders}
use spottex_test.Consultation.Calendar.State.{calendar_of}
use spottex_test.Consultation.Calendar.Queue.{
  QueueError, resolve_calendar_delete_calendar_id, enqueue_calendar_delete,
}
use spottex_test.Consultation.Calendar.Google.{Google}
use spottex_test.Consultation.Calendar.Worker.{process_consultation_calendar_jobs}
use spottex_test.Consultation.Verify.{target_of}

pub data ManageError : Type 0 where
  missing_booking too_late not_modifiable slot_gone booking_moved host_unavailable bad_job :
      ManageError

abbrev pub notice_ms : ℕ
notice_ms = 7200000

-- The booking with its slot.
unfoldable pub with_slot : ℕ → Desk → Option (Booking × Slot)
unfolding find_first
with_slot id d = elim (row (λ b. b.id) id d.bookings) [
  | none ↦ none
  | some b ↦ elim (row (λ x. x.id) b.slot_id d.slots) [ none ↦ none | some x ↦ some (b, x) ]
]

-- `oldEventId`: the event of the slot, or the one that the revision's job creates.
unfoldable pub old_event_id : Booking → Slot → Option EventId
old_event_id b x =
    or_else x.google_event_id
      (if b.calendar_revision == 0 then none else some (derived b.id b.calendar_revision))

abbrev lift : Result QueueError (Option ℕ) → Result ManageError (Option ℕ)
lift (throws err) = throws bad_job
lift (ok c) = ok c

-- `oldCalendarId`.
unfoldable pub old_calendar_id : Booking → Slot → Desk → Result ManageError (Option ℕ)
unfolding resolve_calendar_delete_calendar_id find_first
old_calendar_id b x d = lift (
    resolve_calendar_delete_calendar_id b.id b.calendar_revision x.google_calendar_id
      (target_of (calendar_of x.host d.calendars)) d.outbox)

-- The row that a conditional update of the booking must find unchanged.
abbrev pub same_booking : Booking → Booking → Bool
same_booking b c =
    c.id == b.id
    && is_confirmed c.status
    && c.slot_id == b.slot_id
    && c.calendar_revision == b.calendar_revision

abbrev pub booked_slot : ℕ → Slot → Bool
booked_slot id x = x.id == id && is_booked x.status

abbrev pub open_again : Slot → Slot
open_again x = record x {
  status = open_slot;
  hold_expires_at = none;
  google_calendar_id = none;
  google_event_id = none;
  meet_url = none;
}

-- The job that deletes the event, where there is a calendar and an event.
unfoldable pub enqueue_old_delete :
    ℕ → Booking → Slot → Option ℕ → Option EventId → Desk → List ℕ × Desk
unfolding enqueue_calendar_delete
enqueue_old_delete now b x (some calendar) (some event) d =
    let (job, o) =
      enqueue_calendar_delete now
        (record {
          booking_id = b.id;
          host = x.host;
          revision = b.calendar_revision;
          calendar_id = calendar;
          event_id = event;
        })
        d.outbox in
    (job ∷ [], record d { outbox = o })
enqueue_old_delete now b x calendar event d = ([], d)

abbrev drop_reminders : ℕ → List ℕ × Desk → List ℕ × Desk
unfolding cancel_pending_consultation_reminders
drop_reminders id (jobs, d) = (
  jobs,
  record d {
    outbox = record d.outbox {
      notices = cancel_pending_consultation_reminders id d.outbox.notices;
    };
  },
)

abbrev pub cancel_booking : ℕ → Booking → Booking
cancel_booking now c = record c {
  status = canceled_booking;
  manage_token_expires_at = now;
  calendar_revision = suc c.calendar_revision;
}

-- The two updates, which both must find their row.
unfoldable pub release_booking : ℕ → Booking → Desk → Result ManageError Desk
unfolding count_where update_where
release_booking now b d =
    if count_where (same_booking b) d.bookings == 0
    then throws booking_moved
    else if count_where (booked_slot b.slot_id) d.slots == 0
    then throws booking_moved
    else ok (record d {
      bookings = update_where (same_booking b) (cancel_booking now) d.bookings;
      slots = update_where (booked_slot b.slot_id) open_again d.slots;
    })

-- Whether the guest may still cancel.
unfoldable pub is_too_late : ℕ → Booking → Slot → Bool
is_too_late now b x =
    leb b.manage_token_expires_at now
    || not (is_confirmed b.status)
    || leb x.start_utc (now + notice_ms)

-- The transaction on the rows as they are read in it: the ids of the jobs to run at once.
unfoldable pub cancel_read : ℕ → Booking → Slot → Desk → Result ManageError (List ℕ × Desk)
unfolding is_too_late old_calendar_id old_event_id release_booking enqueue_old_delete
    cancel_pending_consultation_reminders
cancel_read now b x d =
    if is_canceled_booking b.status
    then ok ([], d)
    else if is_too_late now b x
    then throws too_late
    else old_calendar_id b x d >>= (λ calendar. release_booking now b d >>= (λ d₁.
      ok (drop_reminders b.id (enqueue_old_delete now b x calendar (old_event_id b x) d₁))))

unfoldable pub cancel_by_id : ℕ → ℕ → Desk → Result ManageError (List ℕ × Desk)
unfolding with_slot cancel_read
cancel_by_id now id d = elim (with_slot id d) [
  | none ↦ throws missing_booking
  | some (b, x) ↦ cancel_read now b x d
]

pub data ManageAnswer : Type 0 where
  accepted not_found : ManageAnswer
  refused : ManageError → ManageAnswer

-- The jobs are run at once; what they throw is logged.
abbrev run_now : Google → ℕ → List ℕ → Desk → Desk
unfolding process_consultation_calendar_jobs
run_now google now [] d = d
run_now google now (i ∷ is) d =
    process_consultation_calendar_jobs google (some (length (i ∷ is))) (some (i ∷ is)) now d

abbrev pub manage_answer :
    Google → ℕ → Desk → Result ManageError (List ℕ × Desk) → ManageAnswer × Desk
unfolding process_consultation_calendar_jobs
manage_answer google now d (throws err) = (refused err, d)
manage_answer google now d (ok (jobs, d')) = (accepted, run_now google now jobs d')

-- POST, with the hash of the token.
unfoldable pub cancel : Google → ℕ → ℕ → Desk → ManageAnswer × Desk
unfolding find_first cancel_by_id process_consultation_calendar_jobs
cancel google now hash d = elim (find_first (λ b. b.manage_token_hash == hash) d.bookings) [
  | none ↦ (not_found, d)
  | some b ↦ manage_answer google now d (cancel_by_id now b.id d)
]
