-- ===== src/Consultation/Holding.antt =====
-- The hold of a slot: releaseExpiredConsultationHolds of src/lib/consultation/service.ts and the
-- booking route of src/app/api/consultations/bookings after its input and rate checks.
use spottex_test.Common.{
  ℕ, suc, ◌+◌, Bool, true, false, ◌&&◌, Option, none, some, [], ◌∷◌, ◌++◌, ◌==◌, ltb, if◌then◌else◌,
  find_first, update_where, count_where, row, Result, ok, throws,
}
use spottex_test.Consultation.Model.{
  open_slot, held, blocked, pending_booking, expired_booking, Slot, Booking, Desk, is_open_slot,
  is_held, is_pending_booking,
}
use spottex_test.Consultation.Mails.{queue_booking_verification}
use spottex_test.Consultation.Calendar.State.{calendar_of, metadata_of, is_calendar_disconnecting}
use spottex_test.Consultation.Calendar.Google.{Google, GoogleError, host_calendar_has_conflict}

-- `HOLD_MINUTES`.
abbrev pub hold_ms : ℕ
hold_ms = 1800000

abbrev expired_before : ℕ → Option ℕ → Bool
expired_before now none = false
expired_before now (some e) = ltb e now

-- A slot whose hold has expired.
abbrev pub lapsed : ℕ → Slot → Bool
lapsed now x = is_held x.status && expired_before now x.hold_expires_at

abbrev pub has_lapsed : ℕ → Option Slot → Bool
has_lapsed now none = false
has_lapsed now (some x) = lapsed now x

abbrev pub release_slot : Slot → Slot
release_slot x = record x { status = open_slot; hold_expires_at = none }

-- releaseExpiredConsultationHolds.
unfoldable pub release_expired : ℕ → Desk → Desk
unfolding update_where find_first
release_expired now d = record d {
  bookings =
      update_where
        (λ b. is_pending_booking b.status && has_lapsed now (row (λ x. x.id) b.slot_id d.slots))
        (λ b. record b { status = expired_booking }) d.bookings;
  slots = update_where (lapsed now) release_slot d.slots;
}

-- The slot that can be held.
abbrev pub claimable : ℕ → ℕ → Slot → Bool
claimable now id x = x.id == id && is_open_slot x.status && ltb now x.start_utc

abbrev pub held_until : ℕ → Slot → Slot
held_until t x = record x { status = held; hold_expires_at = some t }

-- What a request gives: the guest's address and the hashes of the two new tokens.
pub record Guest : Type 0 where
  pub email : ℕ
  pub verify_hash : ℕ
  pub manage_hash : ℕ

abbrev pub held_booking : ℕ → Guest → ℕ → ℕ → Booking
held_booking now g id slot_id = record {
  id = id;
  slot_id = slot_id;
  guest_email = g.email;
  status = pending_booking;
  verify_token_hash = g.verify_hash;
  manage_token_hash = g.manage_hash;
  manage_token_expires_at = now + hold_ms;
  email_verified_at = none;
  calendar_revision = 0;
  consent_at = now;
}

-- The tables with the slot held, and a new booking with its mail.
unfoldable pub claimed_desk : ℕ → Guest → ℕ → Desk → Desk
unfolding update_where queue_booking_verification
claimed_desk now g slot_id d = record d {
  slots = update_where (claimable now slot_id) (held_until (now + hold_ms)) d.slots;
  bookings = d.bookings ++ held_booking now g d.next_booking slot_id ∷ [];
  outbox = record d.outbox {
    notices = queue_booking_verification now d.next_booking g.email d.outbox.notices;
  };
  next_booking = suc d.next_booking;
}

-- The transaction after the state of the calendar: `none` if the slot is no longer open.
unfoldable pub claim_slot : ℕ → Guest → ℕ → Desk → Option (ℕ × Desk)
unfolding count_where claimed_desk
claim_slot now g slot_id d =
    if count_where (claimable now slot_id) d.slots == 0
    then none
    else some (d.next_booking, claimed_desk now g slot_id d)

pub data BookingAnswer : Type 0 where
  booked_as : ℕ → BookingAnswer
  slot_taken calendar_unavailable : BookingAnswer

-- The check of the host's calendar, `none` if it fails, and the tables when it answers.
abbrev pub AskCalendar : Type 0
AskCalendar = Slot → Desk → Option Bool × Desk

abbrev conflict_of : Result GoogleError Bool → Option Bool
conflict_of (throws err) = none
conflict_of (ok conflict) = some conflict

-- The check of hostCalendarHasConflict, while no other request writes.
unfoldable ask_google : Google → ℕ → AskCalendar
unfolding host_calendar_has_conflict
ask_google google now x d =
    let (r, cs) = host_calendar_has_conflict google now x.host x.start_utc x.end_utc d.calendars in
    (conflict_of r, record d { calendars = cs })

-- `updateMany({ where: { id, status: "OPEN" }, data: { status: "BLOCKED" } })`.
unfoldable pub block_slot : ℕ → Desk → Desk
unfolding update_where
block_slot id d = record d {
  slots =
      update_where (λ x. x.id == id && is_open_slot x.status) (λ x. record x { status = blocked })
        d.slots;
}

abbrev answer_of : Option (ℕ × Desk) → Desk → BookingAnswer × Desk
answer_of none d = (slot_taken, d)
answer_of (some (i, d')) d = (booked_as i, d')

-- Whether the locked row of the host's calendar is being disconnected.
unfoldable pub host_disconnecting : ℕ → Desk → Bool
unfolding is_calendar_disconnecting find_first
host_disconnecting host d = is_calendar_disconnecting (metadata_of (calendar_of host d.calendars))

-- What follows the check of the calendar.
unfoldable pub hold_slot : ℕ → Guest → Slot → Option Bool → Desk → BookingAnswer × Desk
unfolding claim_slot block_slot host_disconnecting
hold_slot now g x none d = (calendar_unavailable, d)
hold_slot now g x (some true) d = (slot_taken, block_slot x.id d)
hold_slot now g x (some false) d =
    if host_disconnecting x.host d
    then (calendar_unavailable, d)
    else answer_of (claim_slot now g x.id d) d

-- POST /api/consultations/bookings.
unfoldable pub book : AskCalendar → ℕ → Guest → ℕ → Desk → BookingAnswer × Desk
unfolding release_expired hold_slot find_first
book ask now g slot_id d =
    let d₁ = release_expired now d in
    elim (find_first (claimable now slot_id) d₁.slots) [
      | none ↦ (slot_taken, d₁)
      | some x ↦ let (c, d₂) = ask x d₁ in hold_slot now g x c d₂
    ]
