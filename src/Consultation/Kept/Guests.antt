-- ===== src/Consultation/Kept/Guests.antt =====
-- What guests do leaves every pending booking at its slot.
use spottex_test.Common.{
  ℕ, ◌+◌, ◌≡◌, refl, true, ◌&&◌, some, none, List, ◌==◌, inl, inr, Bool-cases, Option-cases,
  update_where, count_where, arith, Option, Gives, Returns, Returns-any, Returns->>=,
}
use spottex_test.Consultation.Model.{
  EventId, is_canceled_booking, Slot, Booking, Desk, is_confirmed,
}
use spottex_test.Consultation.Agrees.Base.{slot_at}
use spottex_test.Consultation.Holding.{
  claimed_desk, Guest, claim_slot, claimable, host_disconnecting,
}
use spottex_test.Consultation.Verify.{
  waiting, waiting_there, its_slot, mark_confirmed, give_up, confirm_held, announce_confirmation,
}
use spottex_test.Consultation.Cancel.{
  cancel_by_id, cancel_read, release_booking, same_booking, booked_slot, with_slot, old_calendar_id,
  old_event_id, is_too_late, enqueue_old_delete,
}
use spottex_test.Consultation.Reschedule.{
  move, move_read, move_rows, queue_move, may_take, take_slot,
}
use spottex_test.Consultation.Kept.Base.{StayPut, same-StayPut, append-StayPut, update-StayPut}
use spottex_test.Consultation.Verify.{expire_booking, confirm_booking, manage_ms}
use spottex_test.Consultation.Holding.{held_booking}
use spottex_test.Consultation.Cancel.{cancel_booking}
use spottex_test.Consultation.Reschedule.{move_booking}
use spottex_test.Consultation.Model.{is_pending_booking}

pub give_up-StayPut :
    (now : ℕ) (b : Booking) (d : Desk)
    → Returns (λ d'. StayPut d.bookings d'.bookings) (give_up now b d)
unfolding give_up
give_up-StayPut now b d = elim (Bool-cases (count_where (waiting_there b) d.bookings == 0)) [
  | inl e ↦ rw (give_up, e) tt
  | inr e ↦ elim (Bool-cases (count_where (its_slot now b) d.slots == 0)) [
    | inl f ↦ rw (give_up, e, f) tt
    | inr f ↦
        rw (give_up, e, f)
          (update-StayPut (waiting_there b) expire_booking d.bookings (λ x. refl) (λ x h. cc))
  ]
]

mark_confirmed-StayPut :
    (now hash : ℕ) (b : Booking) (x : Slot) (d : Desk)
    → Returns (λ d'. StayPut d.bookings d'.bookings) (mark_confirmed now hash b x d)
unfolding mark_confirmed
mark_confirmed-StayPut now hash b x d =
    elim (Bool-cases (count_where (its_slot now b) d.slots == 0)) [
      | inl e ↦ rw (mark_confirmed, e) tt
      | inr e ↦ elim (Bool-cases (count_where (waiting b) d.bookings == 0)) [
        | inl f ↦ rw (mark_confirmed, e, f) tt
        | inr f ↦
            rw (mark_confirmed, e, f)
              (update-StayPut (waiting b) (confirm_booking now hash (x.end_utc + manage_ms))
                d.bookings (λ x. refl) (λ x h. cc))
      ]
    ]

pub claim_slot-StayPut :
    (now id : ℕ) (g : Guest) (d : Desk)
    → Gives (λ r. StayPut d.bookings r.1.bookings) (claim_slot now g id d)
unfolding claim_slot claimed_desk
claim_slot-StayPut now id g d = elim (Bool-cases (count_where (claimable now id) d.slots == 0)) [
  | inl e ↦ rw (claim_slot, e) tt
  | inr e ↦ rw (claim_slot, e) (append-StayPut d.bookings (held_booking now g d.next_booking id))
]

pub confirm_held-StayPut :
    (now hash : ℕ) (b : Booking) (x : Slot) (d : Desk)
    → Returns (λ r. StayPut d.bookings r.1.bookings) (confirm_held now hash b x d)
unfolding confirm_held announce_confirmation
confirm_held-StayPut now hash b x d = elim (Bool-cases (host_disconnecting x.host d)) [
  | inl e ↦ rw (confirm_held, e) tt
  | inr e ↦
      rw (confirm_held, e)
        (Returns->>= (λ d₁. StayPut d.bookings d₁.bookings) (λ r. StayPut d.bookings r.1.bookings)
          (mark_confirmed now hash b x d) _ (mark_confirmed-StayPut now hash b x d) (λ d₁ h. h))
]

release_booking-StayPut :
    (now : ℕ) (b : Booking) (d : Desk)
    → Returns (λ d₁. StayPut d.bookings d₁.bookings) (release_booking now b d)
unfolding release_booking
release_booking-StayPut now b d = elim (Bool-cases (count_where (same_booking b) d.bookings == 0)) [
  | inl e ↦ rw (release_booking, e) tt
  | inr e ↦ elim (Bool-cases (count_where (booked_slot b.slot_id) d.slots == 0)) [
    | inl f ↦ rw (release_booking, e, f) tt
    | inr f ↦
        rw (release_booking, e, f)
          (update-StayPut (same_booking b) (cancel_booking now) d.bookings (λ x. refl) (λ x h. cc))
  ]
]

old_delete-StayPut :
    (now : ℕ) (b : Booking) (x : Slot) (calendar : Option ℕ) (event : Option EventId)
    (xs : List Booking) (d : Desk)
    → StayPut xs d.bookings
    → StayPut xs (enqueue_old_delete now b x calendar event d).1.bookings
unfolding enqueue_old_delete
old_delete-StayPut now b x none event xs d h = h
old_delete-StayPut now b x (some c) none xs d h = h
old_delete-StayPut now b x (some c) (some e) xs d h = h

cancel_read-StayPut :
    (now : ℕ) (b : Booking) (x : Slot) (d : Desk)
    → Returns (λ r. StayPut d.bookings r.1.bookings) (cancel_read now b x d)
unfolding cancel_read
cancel_read-StayPut now b x d = elim (Bool-cases (is_canceled_booking b.status)) [
  | inl e ↦ rw (cancel_read, e) (same-StayPut d.bookings)
  | inr e ↦ elim (Bool-cases (is_too_late now b x)) [
    | inl f ↦ rw (cancel_read, e, f) tt
    | inr f ↦
        rw (cancel_read, e, f)
          (Returns->>= (λ c. Unit {0}) (λ r. StayPut d.bookings r.1.bookings)
            (old_calendar_id b x d) _ (Returns-any (old_calendar_id b x d))
            (λ calendar u.
              Returns->>= (λ d₁. StayPut d.bookings d₁.bookings)
                (λ r. StayPut d.bookings r.1.bookings) (release_booking now b d) _
                (release_booking-StayPut now b d)
                (λ d₁ h. old_delete-StayPut now b x calendar (old_event_id b x) d.bookings d₁ h)))
  ]
]

pub cancel_by_id-StayPut :
    (now id : ℕ) (d : Desk) → Returns (λ r. StayPut d.bookings r.1.bookings) (cancel_by_id now id d)
unfolding cancel_by_id
cancel_by_id-StayPut now id d = elim (Option-cases (with_slot id d)) [
  | inl e ↦ rw (cancel_by_id, e) tt
  | inr ((b, x), e) ↦ rw (cancel_by_id, e) (cancel_read-StayPut now b x d)
]

moved_not_pending :
    {A : Type 0} (b c : Booking) → same_booking b c ≡ true → is_pending_booking c.status ≡ true → A
moved_not_pending b c h p = ground arith

move_rows-StayPut :
    (now new : ℕ) (b : Booking) (x : Slot) (d : Desk)
    → Returns (λ r. StayPut d.bookings r.1.bookings) (move_rows now b x new d)
unfolding move_rows
move_rows-StayPut now new b x d =
    elim (Bool-cases (count_where (may_take now new x.host) d.slots == 0)) [
      | inl e ↦ rw (move_rows, e) tt
      | inr e ↦
          elim (Option-cases
            (slot_at new (update_where (may_take now new x.host) take_slot d.slots))) [
              | inl f ↦ rw (move_rows, e, f) tt
              | inr (next, f) ↦ elim (Bool-cases (count_where (same_booking b) d.bookings == 0)) [
                | inl g ↦ rw (move_rows, e, f, g) tt
                | inr g ↦
                    elim (Bool-cases (
                      count_where (booked_slot b.slot_id)
                        (update_where (may_take now new x.host) take_slot d.slots)
                      == 0)) [
                        | inl h ↦ rw (move_rows, e, f, g, h) tt
                        | inr h ↦
                            rw (move_rows, e, f, g, h)
                              (update-StayPut (same_booking b) (move_booking next) d.bookings
                                (λ x. refl) (λ c h. moved_not_pending b c h))
                      ]
              ]
            ]
    ]

move_read-StayPut :
    (now new : ℕ) (b : Booking) (x : Slot) (d : Desk)
    → Returns (λ r. StayPut d.bookings r.1.bookings) (move_read now b x new d)
unfolding move_read queue_move
move_read-StayPut now new b x d =
    Returns->>= (λ r. StayPut d.bookings r.1.bookings) (λ r. StayPut d.bookings r.1.bookings)
      (move_rows now b x new d) _ (move_rows-StayPut now new b x d)
      (λ r h.
        Returns->>= (λ c. Unit {0}) (λ r. StayPut d.bookings r.1.bookings) (old_calendar_id b x r.1)
          _ (Returns-any (old_calendar_id b x r.1))
          (λ calendar u. old_delete-StayPut now b x calendar (old_event_id b x) d.bookings r.1 h))

pub move-StayPut :
    (now new : ℕ) (was : Booking) (was_slot : Slot) (d : Desk)
    → Returns (λ r. StayPut d.bookings r.1.bookings) (move now was was_slot new d)
unfolding move
move-StayPut now new was was_slot d = elim (Bool-cases (host_disconnecting was_slot.host d)) [
  | inl e ↦ rw (move, e) tt
  | inr e ↦ elim (Option-cases (with_slot was.id d)) [
    | inl f ↦ rw (move, e, f) tt
    | inr ((b, x), f) ↦ elim (Bool-cases (is_confirmed b.status && b.slot_id == was.slot_id)) [
      | inl g ↦ rw (move, e, f, g) (move_read-StayPut now new b x d)
      | inr g ↦ rw (move, e, f, g) tt
    ]
  ]
]
