-- ===== src/Consultation/Agrees/Kept.antt =====
-- Every write keeps slots and bookings in agreement.
use spottex_test.Common.{
  ℕ, ◌+◌, ◌&&◌, some, none, ◌==◌, inl, inr, Bool-cases, Option-cases, update_where, count_where,
  Option, Gives, Returns, Returns-any, Returns->>=,
}
use spottex_test.Consultation.Model.{
  EventId, is_canceled_booking, Slot, Booking, Desk, is_confirmed,
}
use spottex_test.Consultation.Agrees.Base.{IsSound, slot_at}
use spottex_test.Consultation.Holding.{
  Guest, claim_slot, claimed_desk, claimable, host_disconnecting,
}
use spottex_test.Consultation.Verify.{
  waiting, waiting_there, its_slot, mark_confirmed, manage_ms, give_up, confirm_held,
  announce_confirmation,
}
use spottex_test.Consultation.Cancel.{
  cancel_by_id, cancel_read, release_booking, same_booking, booked_slot, with_slot, old_calendar_id,
  old_event_id, is_too_late, enqueue_old_delete,
}
use spottex_test.Consultation.Reschedule.{
  move, move_read, move_rows, queue_move, may_take, take_slot,
}
use spottex_test.Consultation.Agrees.Bookings.{claim-Agrees}
use spottex_test.Consultation.Agrees.Managed.{
  IsUnmoved, give_up-Agrees, confirm-Agrees, cancel-Agrees,
}
use spottex_test.Consultation.Agrees.Moved.{move-Agrees}

pub claim_slot-IsSound :
    (now id : ℕ) (g : Guest) (d : Desk)
    → IsSound d
    → Gives (λ r. IsSound r.1) (claim_slot now g id d)
unfolding claim_slot claimed_desk
claim_slot-IsSound now id g d a = elim (Bool-cases (count_where (claimable now id) d.slots == 0)) [
  | inl e ↦ rw (claim_slot, e) tt
  | inr e ↦ rw (claim_slot, e) (claim-Agrees a now id g e)
]

pub give_up-IsSound :
    (now : ℕ) (b : Booking) (d : Desk) → IsSound d → Returns IsSound (give_up now b d)
unfolding give_up
give_up-IsSound now b d a = elim (Bool-cases (count_where (waiting_there b) d.bookings == 0)) [
  | inl e ↦ rw (give_up, e) tt
  | inr e ↦ elim (Bool-cases (count_where (its_slot now b) d.slots == 0)) [
    | inl f ↦ rw (give_up, e, f) tt
    | inr f ↦ rw (give_up, e, f) (give_up-Agrees a now b e f)
  ]
]

mark_confirmed-IsSound :
    (now hash : ℕ) (b : Booking) (x : Slot) (d : Desk)
    → IsUnmoved b d
    → IsSound d
    → Returns IsSound (mark_confirmed now hash b x d)
unfolding mark_confirmed
mark_confirmed-IsSound now hash b x d unmoved a =
    elim (Bool-cases (count_where (its_slot now b) d.slots == 0)) [
      | inl e ↦ rw (mark_confirmed, e) tt
      | inr e ↦ elim (Bool-cases (count_where (waiting b) d.bookings == 0)) [
        | inl f ↦ rw (mark_confirmed, e, f) tt
        | inr f ↦
            rw (mark_confirmed, e, f)
              (confirm-Agrees a now hash (x.end_utc + manage_ms) b unmoved e f)
      ]
    ]

release_booking-IsSound :
    (now : ℕ) (b : Booking) (d : Desk) → IsSound d → Returns IsSound (release_booking now b d)
unfolding release_booking
release_booking-IsSound now b d a =
    elim (Bool-cases (count_where (same_booking b) d.bookings == 0)) [
      | inl e ↦ rw (release_booking, e) tt
      | inr e ↦ elim (Bool-cases (count_where (booked_slot b.slot_id) d.slots == 0)) [
        | inl f ↦ rw (release_booking, e, f) tt
        | inr f ↦ rw (release_booking, e, f) (cancel-Agrees a now b e f)
      ]
    ]

pub confirm_held-IsSound :
    (now hash : ℕ) (b : Booking) (x : Slot) (d : Desk)
    → IsUnmoved b d
    → IsSound d
    → Returns (λ r. IsSound r.1) (confirm_held now hash b x d)
unfolding confirm_held announce_confirmation
confirm_held-IsSound now hash b x d unmoved a = elim (Bool-cases (host_disconnecting x.host d)) [
  | inl e ↦ rw (confirm_held, e) tt
  | inr e ↦
      rw (confirm_held, e)
        (Returns->>= IsSound (λ r. IsSound r.1) (mark_confirmed now hash b x d) _
          (mark_confirmed-IsSound now hash b x d unmoved a) (λ d₁ h. h))
]

enqueue_old_delete-IsSound :
    (now : ℕ) (b : Booking) (x : Slot) (calendar : Option ℕ) (event : Option EventId) (d : Desk)
    → IsSound d
    → IsSound (enqueue_old_delete now b x calendar event d).1
unfolding enqueue_old_delete
enqueue_old_delete-IsSound now b x none event d a = a
enqueue_old_delete-IsSound now b x (some c) none d a = a
enqueue_old_delete-IsSound now b x (some c) (some e) d a = a

cancel_read-IsSound :
    (now : ℕ) (b : Booking) (x : Slot) (d : Desk)
    → IsSound d
    → Returns (λ r. IsSound r.1) (cancel_read now b x d)
unfolding cancel_read
cancel_read-IsSound now b x d a = elim (Bool-cases (is_canceled_booking b.status)) [
  | inl e ↦ rw (cancel_read, e) a
  | inr e ↦ elim (Bool-cases (is_too_late now b x)) [
    | inl f ↦ rw (cancel_read, e, f) tt
    | inr f ↦
        rw (cancel_read, e, f)
          (Returns->>= (λ c. Unit {0}) (λ r. IsSound r.1) (old_calendar_id b x d) _
            (Returns-any (old_calendar_id b x d))
            (λ calendar u.
              Returns->>= IsSound (λ r. IsSound r.1) (release_booking now b d) _
                (release_booking-IsSound now b d a)
                (λ d₁ h. enqueue_old_delete-IsSound now b x calendar (old_event_id b x) d₁ h)))
  ]
]

pub cancel_by_id-IsSound :
    (now id : ℕ) (d : Desk) → IsSound d → Returns (λ r. IsSound r.1) (cancel_by_id now id d)
unfolding cancel_by_id
cancel_by_id-IsSound now id d a = elim (Option-cases (with_slot id d)) [
  | inl e ↦ rw (cancel_by_id, e) tt
  | inr ((b, x), e) ↦ rw (cancel_by_id, e) (cancel_read-IsSound now b x d a)
]

move_rows-IsSound :
    (now new : ℕ) (b : Booking) (x : Slot) (d : Desk)
    → IsSound d
    → Returns (λ r. IsSound r.1) (move_rows now b x new d)
unfolding move_rows
move_rows-IsSound now new b x d a =
    elim (Bool-cases (count_where (may_take now new x.host) d.slots == 0)) [
      | inl e ↦ rw (move_rows, e) tt
      | inr e ↦
          elim (Option-cases
            (slot_at new (update_where (may_take now new x.host) take_slot d.slots))) [
              | inl f ↦ rw (move_rows, e, f) tt
              | inr (next, f) ↦ elim (Bool-cases (count_where (same_booking b) d.bookings == 0)) [
                | inl g ↦ rw (move_rows, e, f, g) tt
                | inr g ↦
                    elim (Bool-cases (
                      count_where (booked_slot b.slot_id)
                        (update_where (may_take now new x.host) take_slot d.slots)
                      == 0)) [
                        | inl h ↦ rw (move_rows, e, f, g, h) tt
                        | inr h ↦
                            rw (move_rows, e, f, g, h) (move-Agrees a now new x.host b next e f g h)
                      ]
              ]
            ]
    ]

queue_move-IsSound :
    (now : ℕ) (b : Booking) (x next : Slot) (calendar : Option ℕ) (d : Desk)
    → IsSound d
    → IsSound (queue_move now b x next calendar d).1
unfolding queue_move
queue_move-IsSound now b x next calendar d a =
    enqueue_old_delete-IsSound now b x calendar (old_event_id b x) d a

move_read-IsSound :
    (now new : ℕ) (b : Booking) (x : Slot) (d : Desk)
    → IsSound d
    → Returns (λ r. IsSound r.1) (move_read now b x new d)
unfolding move_read
move_read-IsSound now new b x d a =
    Returns->>= (λ r. IsSound r.1) (λ r. IsSound r.1) (move_rows now b x new d) _
      (move_rows-IsSound now new b x d a)
      (λ r h.
        Returns->>= (λ c. Unit {0}) (λ r. IsSound r.1) (old_calendar_id b x r.1) _
          (Returns-any (old_calendar_id b x r.1))
          (λ calendar u. queue_move-IsSound now b x r.0 calendar r.1 h))

pub move-IsSound :
    (now new : ℕ) (was : Booking) (was_slot : Slot) (d : Desk)
    → IsSound d
    → Returns (λ r. IsSound r.1) (move now was was_slot new d)
unfolding move
move-IsSound now new was was_slot d a = elim (Bool-cases (host_disconnecting was_slot.host d)) [
  | inl e ↦ rw (move, e) tt
  | inr e ↦ elim (Option-cases (with_slot was.id d)) [
    | inl f ↦ rw (move, e, f) tt
    | inr ((b, x), f) ↦ elim (Bool-cases (is_confirmed b.status && b.slot_id == was.slot_id)) [
      | inl g ↦ rw (move, e, f, g) (move_read-IsSound now new b x d a)
      | inr g ↦ rw (move, e, f, g) tt
    ]
  ]
]
