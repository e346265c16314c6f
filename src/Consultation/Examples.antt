-- ===== src/Consultation/Examples.antt =====
-- A desk with two open slots of one host, a guest who books and confirms, and the host's calendar.
use spottex_test.Consultation.Agrees.Managed.{IsUnmoved}
use spottex_test.Consultation.Kept.Reach.{reach-IsUnmoved}
use spottex_test.Consultation.Model.{Booking, canceled_booking, pending_booking}
use spottex_test.Common.{
  ℕ, ◌≡◌, refl, none, [], ◌∷◌, Option, some, false, arith, count_where, find_first,
}
use spottex_test.Consultation.Model.{Desk, Slot, canceled_slot, held, open_slot}
use spottex_test.Consultation.Holding.{
  Guest, claimed_desk, claim_slot, release_expired, book, host_disconnecting,
}
use spottex_test.Consultation.Held.{claim_slot-claim_slot}
use spottex_test.Consultation.Agrees.Base.{IsSound, pending_for}
use spottex_test.Consultation.Steps.{here, later, claims, releases, IsTimely}
use spottex_test.Consultation.Diagram.Edges.{Follows, status_at}
use spottex_test.Consultation.Slots.{find_removable, removed, remove_slot}
use spottex_test.Consultation.Removal.{remove_slot-claim_slot}
use spottex_test.Consultation.Diagram.Refines.{step-Follows}
use spottex_test.Consultation.Lapsed.{IsBooked, book-obtainable}

abbrev slot : Slot
slot = record {
  id = 4;
  host = 2;
  start_utc = 9000000;
  end_utc = 10800000;
  status = open_slot;
  hold_expires_at = none;
  google_calendar_id = none;
  google_event_id = none;
  meet_url = none;
}

abbrev guest : Guest
guest = record { email = 7; verify_hash = 70; manage_hash = 71 }

abbrev desk : Desk
desk = record {
  slots = slot ∷ [];
  bookings = [];
  calendars = [];
  hosts = [];
  outbox = record { jobs = []; notices = []; next_job = 1 };
  next_slot = 5;
  next_booking = 50;
}

abbrev desk_of : Option (ℕ × Desk) → Desk
desk_of none = desk
desk_of (some (i, d)) = d

abbrev held_desk : Desk
unfolding claim_slot
held_desk = desk_of (claim_slot 1000 guest 4 desk)

claim_slot-claim_slot_example : claim_slot 2000 guest 4 held_desk ≡ none
unfolding claim_slot
claim_slot-claim_slot_example =
    claim_slot-claim_slot 1000 2000 4 50 guest guest desk held_desk refl (omega arith)

desk-IsSound : IsSound desk
unfolding count_where find_first
desk-IsSound = record {
  slot_once = λ i. ground arith;
  slot_fresh = λ i le. ground arith;
  booking_once = λ i. ground arith;
  booking_fresh = λ i le. ground arith;
  one_pending = λ i. ground arith;
  one_confirmed = λ i. ground arith;
}

step-Follows_example : Follows desk.slots held_desk.slots
unfolding claim_slot IsTimely
step-Follows_example =
    step-Follows {d = desk} {e = held_desk} (claims {d = desk} 1000 4 50 guest refl) tt desk-IsSound

book-obtainable_example :
    IsBooked 3000000 4 guest held_desk (book (λ y e. (some false, e)) 3000000 guest 4 held_desk)
unfolding claim_slot claimed_desk host_disconnecting
book-obtainable_example =
    book-obtainable (λ y e. (some false, e)) 3000000 4 guest held_desk
      (record slot { status = held; hold_expires_at = some 1801000 }) refl refl refl (λ y e. refl)
      refl

abbrev held_booking : Booking
held_booking = record {
  id = 50;
  slot_id = 4;
  guest_email = 7;
  status = pending_booking;
  verify_token_hash = 70;
  manage_token_hash = 71;
  manage_token_expires_at = 1801000;
  email_verified_at = none;
  calendar_revision = 0;
  consent_at = 1000;
}

reach-IsUnmoved_example : IsUnmoved held_booking (release_expired 1500000 held_desk)
unfolding claim_slot claimed_desk
reach-IsUnmoved_example =
    reach-IsUnmoved {d = held_desk} {e = release_expired 1500000 held_desk} held_booking refl
      (later (releases {d = held_desk} 1500000) here)

-- A booking of the slot that its guest has canceled.
abbrev past_booking : Booking
past_booking = record held_booking { id = 49; status = canceled_booking }

abbrev past_desk : Desk
past_desk = record desk { bookings = past_booking ∷ [] }

past_desk-IsSound : IsSound past_desk
unfolding count_where find_first
past_desk-IsSound = record {
  slot_once = λ i. ground arith;
  slot_fresh = λ i le. ground arith;
  booking_once = λ i. ground arith;
  booking_fresh = λ i le. ground arith;
  one_pending = λ i. ground arith;
  one_confirmed = λ i. ground arith;
}

abbrev taken_desk : Desk
unfolding claim_slot
taken_desk = desk_of (claim_slot 1000 guest 4 past_desk)

remove_slot-claim_slot_example :
    (e : Desk) × (remove_slot (λ rows. taken_desk) 2 4 past_desk ≡ (removed, e))
    × (status_at 4 e.slots ≡ some canceled_slot)
    × (count_where (pending_for 4) e.bookings ≡ 1)
unfolding claim_slot find_removable
remove_slot-claim_slot_example =
    remove_slot-claim_slot 1000 2 4 50 0 guest past_desk taken_desk past_desk-IsSound refl refl
