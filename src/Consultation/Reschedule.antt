-- ===== src/Consultation/Reschedule.antt =====
-- The move of a booking to another slot: src/app/api/consultations/reschedule/route.ts after its
-- input and rate checks. One request has one time.
use spottex_test.Common.{
  ℕ, suc, ◌+◌, Bool, true, false, not, ◌&&◌, ◌||◌, Option, none, some, List, [], ◌∷◌, ◌++◌, ◌==◌,
  ltb, leb, if◌then◌else◌, find_first, update_where, count_where, row, Result, ok, throws, ◌>>=◌,
}
use spottex_test.Consultation.Model.{
  booked, Slot, Booking, Outbox, Desk, is_open_slot, is_confirmed,
}
use spottex_test.Consultation.Mails.{
  cancel_pending_consultation_reminders, queue_booking_confirmation, queue_consultation_reminder,
}
use spottex_test.Consultation.Calendar.State.{calendar_of}
use spottex_test.Consultation.Calendar.Queue.{enqueue_calendar_create}
use spottex_test.Consultation.Calendar.Google.{Google}
use spottex_test.Consultation.Calendar.Worker.{process_consultation_calendar_jobs}
use spottex_test.Consultation.Holding.{AskCalendar, host_disconnecting, block_slot}
use spottex_test.Consultation.Verify.{target_of, auto_meet_of, manage_ms}
use spottex_test.Consultation.Cancel.{
  ManageError, missing_booking, not_modifiable, slot_gone, booking_moved, host_unavailable,
  ManageAnswer, accepted, not_found, refused, notice_ms, with_slot, old_event_id, old_calendar_id,
  same_booking, booked_slot, open_again, enqueue_old_delete, manage_answer,
}

-- A slot of the host that the booking may move to.
abbrev pub may_take : ℕ → ℕ → ℕ → Slot → Bool
may_take now id host x =
    x.id == id && is_open_slot x.status && ltb (now + notice_ms) x.start_utc && x.host == host

abbrev pub take_slot : Slot → Slot
take_slot x = record x { status = booked }

abbrev pub move_booking : Slot → Booking → Booking
move_booking next c = record c {
  slot_id = next.id;
  manage_token_expires_at = next.end_utc + manage_ms;
  calendar_revision = suc c.calendar_revision;
}

-- The three updates: the new slot is taken, the booking moves to it, the old slot opens.
unfoldable pub move_rows : ℕ → Booking → Slot → ℕ → Desk → Result ManageError (Slot × Desk)
unfolding count_where update_where find_first
move_rows now b x new_slot d =
    let slots₁ = update_where (may_take now new_slot x.host) take_slot d.slots in
    if count_where (may_take now new_slot x.host) d.slots == 0
    then throws slot_gone
    else elim (row (λ y. y.id) new_slot slots₁) [
      | none ↦ throws slot_gone
      | some next ↦
          if count_where (same_booking b) d.bookings == 0
          then throws booking_moved
          else if count_where (booked_slot b.slot_id) slots₁ == 0
          then throws booking_moved
          else ok (
            next,
            record d {
              bookings = update_where (same_booking b) (move_booking next) d.bookings;
              slots = update_where (booked_slot b.slot_id) open_again slots₁;
            },
          )
    ]

-- The mails of the move: pending reminders are canceled, then the new ones are queued.
unfoldable pub announce_move : ℕ → Booking → Slot → Outbox → Outbox
unfolding cancel_pending_consultation_reminders queue_booking_confirmation
    queue_consultation_reminder
announce_move now b next o = record o {
  notices = queue_consultation_reminder now b.id b.guest_email next.start_utc (
      queue_booking_confirmation now b.id b.guest_email next.start_utc
        (cancel_pending_consultation_reminders b.id o.notices));
}

-- The jobs and the mails of the move, with the ids of the jobs.
unfoldable pub queue_move : ℕ → Booking → Slot → Slot → Option ℕ → Desk → List ℕ × Desk
unfolding old_event_id enqueue_old_delete enqueue_calendar_create announce_move find_first
queue_move now b x next calendar d =
    let c = calendar_of x.host d.calendars in
    let (deletes, d₁) = enqueue_old_delete now b x calendar (old_event_id b x) d in
    let (job, o) =
      enqueue_calendar_create now
        (record {
          booking_id = b.id;
          slot_id = next.id;
          revision = suc b.calendar_revision;
          calendar_id = target_of c;
          auto_meet = auto_meet_of c;
        })
        d₁.outbox in
    (deletes ++ job ∷ [], record d₁ { outbox = announce_move now b next o })

-- The transaction on the rows as they are read in it.
unfoldable pub move_read : ℕ → Booking → Slot → ℕ → Desk → Result ManageError (List ℕ × Desk)
unfolding move_rows old_calendar_id queue_move
move_read now b x new_slot d = move_rows now b x new_slot d >>= (λ r.
    let (next, d₁) = r in
    old_calendar_id b x d₁ >>= (λ calendar. ok (queue_move now b x next calendar d₁)))

-- The transaction, for the booking and its slot as they were read before it.
unfoldable pub move : ℕ → Booking → Slot → ℕ → Desk → Result ManageError (List ℕ × Desk)
unfolding host_disconnecting with_slot move_read
move now was was_slot new_slot d =
    if host_disconnecting was_slot.host d
    then throws host_unavailable
    else elim (with_slot was.id d) [
      | none ↦ throws missing_booking
      | some (b, x) ↦
          if is_confirmed b.status && b.slot_id == was.slot_id
          then move_read now b x new_slot d
          else throws booking_moved
    ]

abbrev settle_move : Google → ℕ → Booking → Slot → ℕ → Option Bool → Desk → ManageAnswer × Desk
unfolding block_slot move process_consultation_calendar_jobs
settle_move google now b x new_slot none d = (refused host_unavailable, d)
settle_move google now b x new_slot (some true) d = (refused slot_gone, block_slot new_slot d)
settle_move google now b x new_slot (some false) d =
    manage_answer google now d (move now b x new_slot d)

-- What follows the lookup of the booking: the checks, and the candidate for the new slot.
unfoldable try_move : AskCalendar → Google → ℕ → ℕ → Booking → Slot → Desk → ManageAnswer × Desk
unfolding find_first block_slot move process_consultation_calendar_jobs
try_move ask google now new_slot b x d =
    if not (is_confirmed b.status) || leb x.start_utc (now + notice_ms)
    then (refused not_modifiable, d)
    else if b.slot_id == new_slot
    then (accepted, d)
    else elim (find_first (may_take now new_slot x.host) d.slots) [
      | none ↦ (refused slot_gone, d)
      | some y ↦ let (c, d₁) = ask y d in settle_move google now b x new_slot c d₁
    ]

-- POST, with the hash of the token.
unfoldable reschedule_booking : AskCalendar → Google → ℕ → ℕ → ℕ → Desk → ManageAnswer × Desk
unfolding find_first with_slot try_move
reschedule_booking ask google now hash new_slot d =
    elim (find_first (λ b. b.manage_token_hash == hash && ltb now b.manage_token_expires_at)
      d.bookings) [
        | none ↦ (not_found, d)
        | some b ↦ elim (with_slot b.id d) [
          | none ↦ (not_found, d)
          | some (c, x) ↦ try_move ask google now new_slot c x d
        ]
      ]
