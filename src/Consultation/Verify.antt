-- ===== src/Consultation/Verify.antt =====
-- The confirmation of a booking: src/app/api/consultations/verify/route.ts after the token is read
-- from the form. One request has one time.
use spottex_test.Common.{
  ℕ, suc, ◌+◌, Bool, true, false, ◌&&◌, Option, none, some, List, [], ◌∷◌, ◌==◌, ltb, if◌then◌else◌,
  find_first, update_where, count_where, row, Result, ok, throws, ◌>>=◌,
}
use spottex_test.Consultation.Model.{
  booked, blocked, confirmed, expired_booking, Slot, Booking, HostCalendar, Host, Notice, Desk,
  is_held, is_pending_booking, is_confirmed,
}
use spottex_test.Consultation.Mails.{
  queue_booking_confirmation, queue_host_booking_notice, queue_consultation_reminder,
}
use spottex_test.Consultation.Calendar.State.{calendar_of}
use spottex_test.Consultation.Calendar.Queue.{enqueue_calendar_create}
use spottex_test.Consultation.Calendar.Google.{Google}
use spottex_test.Consultation.Calendar.Worker.{process_consultation_calendar_jobs}
use spottex_test.Consultation.Holding.{AskCalendar, host_disconnecting}

pub data VerifyAnswer : Type 0 where
  confirmed_as : ℕ → VerifyAnswer
  may_confirm invalid expired slot_conflict calendar_retry : VerifyAnswer

-- A hold that has not expired.
abbrev live_hold : ℕ → Slot → Bool
live_hold now x = is_held x.status && elim x.hold_expires_at [ none ↦ false | some e ↦ ltb now e ]

-- readBooking, with its slot.
unfoldable read_booking : ℕ → Desk → Option (Booking × Slot)
unfolding find_first
read_booking hash d = elim (find_first (λ b. b.verify_token_hash == hash) d.bookings) [
  | none ↦ none
  | some b ↦ elim (row (λ x. x.id) b.slot_id d.slots) [ none ↦ none | some x ↦ some (b, x) ]
]

-- The checks before anything is written.
unfoldable judge_booking : ℕ → Option (Booking × Slot) → VerifyAnswer
judge_booking now none = invalid
judge_booking now (some (b, x)) =
    if is_confirmed b.status
    then confirmed_as b.id
    else if is_pending_booking b.status && live_hold now x
    then may_confirm
    else expired

-- GET: the answer is read only.
unfoldable preview : ℕ → ℕ → Desk → VerifyAnswer
unfolding judge_booking read_booking
preview now hash d = judge_booking now (read_booking hash d)

pub data VerifyError : Type 0 where
  booking_changed hold_expired disconnecting_calendar : VerifyError

-- The booking while it waits for its confirmation, and its slot while the hold is alive.
abbrev pub waiting : Booking → Booking → Bool
waiting b c = c.id == b.id && is_pending_booking c.status

abbrev pub waiting_there : Booking → Booking → Bool
waiting_there b c = c.id == b.id && c.slot_id == b.slot_id && is_pending_booking c.status

abbrev pub its_slot : ℕ → Booking → Slot → Bool
its_slot now b x = x.id == b.slot_id && live_hold now x

abbrev pub expire_booking : Booking → Booking
expire_booking c = record c { status = expired_booking }

abbrev pub block_hold : Slot → Slot
block_hold x = record x { status = blocked; hold_expires_at = none }

-- The transaction of a conflict in the host's calendar.
unfoldable pub give_up : ℕ → Booking → Desk → Result VerifyError Desk
unfolding count_where update_where
give_up now b d =
    if count_where (waiting_there b) d.bookings == 0
    then throws booking_changed
    else if count_where (its_slot now b) d.slots == 0
    then throws booking_changed
    else ok (record d {
      bookings = update_where (waiting_there b) expire_booking d.bookings;
      slots = update_where (its_slot now b) block_hold d.slots;
    })

abbrev pub manage_ms : ℕ
manage_ms = 604800000

abbrev pub book_slot : Slot → Slot
book_slot x = record x { status = booked; hold_expires_at = none }

-- The booking as it is confirmed, with the hash of the new token.
abbrev pub confirm_booking : ℕ → ℕ → ℕ → Booking → Booking
confirm_booking now hash expires b = record b {
  status = confirmed;
  email_verified_at = some now;
  manage_token_hash = hash;
  manage_token_expires_at = expires;
  calendar_revision = suc b.calendar_revision;
}

abbrev pub target_of : Option HostCalendar → Option ℕ
target_of none = none
target_of (some c) = c.target_calendar_id

abbrev pub auto_meet_of : Option HostCalendar → Bool
auto_meet_of none = true
auto_meet_of (some c) = c.auto_meet

abbrev tell_host : ℕ → Booking → Slot → Option Host → List Notice → List Notice
unfolding queue_host_booking_notice
tell_host now b x none ms = ms
tell_host now b x (some h) ms = queue_host_booking_notice now b.id h.email x.start_utc ms

-- The job of the new revision and the mails, with the id of the job.
unfoldable pub announce_confirmation : ℕ → Booking → Slot → ℕ → Desk → ℕ × Desk
unfolding enqueue_calendar_create queue_booking_confirmation queue_consultation_reminder
    queue_host_booking_notice find_first
announce_confirmation now b x revision d =
    let c = calendar_of x.host d.calendars in
    let (job, o) =
      enqueue_calendar_create now
        (record {
          booking_id = b.id;
          slot_id = b.slot_id;
          revision = revision;
          calendar_id = target_of c;
          auto_meet = auto_meet_of c;
        })
        d.outbox in
    (
      job,
      record d {
        outbox = record o {
          notices = tell_host now b x (row (λ h. h.id) x.host d.hosts) (
              queue_consultation_reminder now b.id b.guest_email x.start_utc
                (queue_booking_confirmation now b.id b.guest_email x.start_utc o.notices));
        };
      },
    )

-- The two conditional updates, which both must find their row.
unfoldable pub mark_confirmed : ℕ → ℕ → Booking → Slot → Desk → Result VerifyError Desk
unfolding count_where update_where
mark_confirmed now hash b x d =
    if count_where (its_slot now b) d.slots == 0
    then throws hold_expired
    else if count_where (waiting b) d.bookings == 0
    then throws hold_expired
    else ok (record d {
      slots = update_where (its_slot now b) book_slot d.slots;
      bookings =
          update_where (waiting b) (confirm_booking now hash (x.end_utc + manage_ms)) d.bookings;
    })

abbrev revision_of : Option Booking → ℕ
revision_of none = 0
revision_of (some b) = b.calendar_revision

-- The transaction of the confirmation, for the booking and the slot read before it.
unfoldable pub confirm_held : ℕ → ℕ → Booking → Slot → Desk → Result VerifyError (ℕ × Desk)
unfolding host_disconnecting mark_confirmed announce_confirmation find_first
confirm_held now hash b x d =
    if host_disconnecting x.host d
    then throws disconnecting_calendar
    else mark_confirmed now hash b x d >>= (λ d₁.
      ok (announce_confirmation now b x (revision_of (row (λ c. c.id) b.id d₁.bookings)) d₁))

abbrev answer_of : Google → ℕ → Booking → Desk → Result VerifyError (ℕ × Desk) → VerifyAnswer × Desk
unfolding process_consultation_calendar_jobs
answer_of google now b d (throws hold_expired) = (expired, d)
answer_of google now b d (throws disconnecting_calendar) = (calendar_retry, d)
answer_of google now b d (throws booking_changed) = (invalid, d)
answer_of google now b d (ok (job, d')) =
    (confirmed_as b.id, process_consultation_calendar_jobs google (some 1) (some (job ∷ [])) now d')

abbrev after_give_up : Desk → Result VerifyError Desk → VerifyAnswer × Desk
after_give_up d (throws err) = (expired, d)
after_give_up d (ok d') = (slot_conflict, d')

-- What follows the check of the host's calendar.
unfoldable settle_booking :
    Google → ℕ → ℕ → Booking → Slot → Option Bool → Desk → VerifyAnswer × Desk
unfolding give_up confirm_held process_consultation_calendar_jobs
settle_booking google now hash b x none d = (calendar_retry, d)
settle_booking google now hash b x (some true) d = after_give_up d (give_up now b d)
settle_booking google now hash b x (some false) d =
    answer_of google now b d (confirm_held now hash b x d)

abbrev on_judgement :
    AskCalendar
    → Google
    → ℕ
    → ℕ
    → Option (Booking × Slot)
    → VerifyAnswer
    → Desk
    → VerifyAnswer × Desk
unfolding settle_booking
on_judgement ask google now fresh (some (b, x)) may_confirm d =
    let (c, d₁) = ask x d in settle_booking google now fresh b x c d₁
on_judgement ask google now fresh found answer d = (answer, d)

-- POST: `fresh` is the hash of the token that the guest will manage the booking with.
unfoldable pub verify : AskCalendar → Google → ℕ → ℕ → ℕ → Desk → VerifyAnswer × Desk
unfolding judge_booking read_booking settle_booking
verify ask google now fresh hash d =
    let found = read_booking hash d in
    on_judgement ask google now fresh found (judge_booking now found) d
