-- ===== src/Consultation/Diagram/Guests.antt =====
-- What guests do to a slot follows an edge of its diagram.
use spottex_test.Common.{
  ℕ, ◌+◌, ◌≡◌, refl, Bool, true, false, ◌&&◌, some, none, List, ◌==◌, inl, inr, Bool-cases,
  Option-cases, update_where, count_where, arith, row-update_where, if◌then◌else◌, Option, Gives,
  Returns, Returns-any, Returns->>=,
}
use spottex_test.Consultation.Model.{
  SlotStatus, held, booked, EventId, is_canceled_booking, Slot, Booking, Desk, is_confirmed,
  is_open_slot,
}
use spottex_test.Consultation.Agrees.Base.{slot_at}
use spottex_test.Consultation.Holding.{
  held_until, hold_ms, claimed_desk, Guest, claim_slot, claimable, host_disconnecting,
}
use spottex_test.Consultation.Verify.{
  book_slot, block_hold, waiting, waiting_there, its_slot, mark_confirmed, give_up, confirm_held,
  announce_confirmation,
}
use spottex_test.Consultation.Cancel.{
  open_again, cancel_by_id, cancel_read, release_booking, same_booking, booked_slot, with_slot,
  old_calendar_id, old_event_id, is_too_late, enqueue_old_delete,
}
use spottex_test.Consultation.Reschedule.{
  move, move_read, move_rows, queue_move, may_take, take_slot,
}
use spottex_test.Consultation.Model.{open_slot, blocked, canceled_slot}
use spottex_test.Consultation.Diagram.Edges.{
  ◌↝◌, stays, moved_here, Follows, update-Follows, to_held, to_booked, to_blocked, to_freed,
}

pub give_up-Follows :
    (now : ℕ) (b : Booking) (d : Desk) → Returns (λ d'. Follows d.slots d'.slots) (give_up now b d)
unfolding give_up
give_up-Follows now b d = elim (Bool-cases (count_where (waiting_there b) d.bookings == 0)) [
  | inl e ↦ rw (give_up, e) tt
  | inr e ↦ elim (Bool-cases (count_where (its_slot now b) d.slots == 0)) [
    | inl f ↦ rw (give_up, e, f) tt
    | inr f ↦
        rw (give_up, e, f)
          (update-Follows (its_slot now b) block_hold d.slots (λ x. refl)
            (λ x h. to_blocked x.status (ground arith)))
  ]
]

mark_confirmed-Follows :
    (now hash : ℕ) (b : Booking) (x : Slot) (d : Desk)
    → Returns (λ d'. Follows d.slots d'.slots) (mark_confirmed now hash b x d)
unfolding mark_confirmed
mark_confirmed-Follows now hash b x d =
    elim (Bool-cases (count_where (its_slot now b) d.slots == 0)) [
      | inl e ↦ rw (mark_confirmed, e) tt
      | inr e ↦ elim (Bool-cases (count_where (waiting b) d.bookings == 0)) [
        | inl f ↦ rw (mark_confirmed, e, f) tt
        | inr f ↦
            rw (mark_confirmed, e, f)
              (update-Follows (its_slot now b) book_slot d.slots (λ x. refl)
                (λ x h. to_booked x.status (ground arith)))
      ]
    ]

pub claim_slot-Follows :
    (now id : ℕ) (g : Guest) (d : Desk)
    → Gives (λ r. Follows d.slots r.1.slots) (claim_slot now g id d)
unfolding claim_slot claimed_desk
claim_slot-Follows now id g d = elim (Bool-cases (count_where (claimable now id) d.slots == 0)) [
  | inl e ↦ rw (claim_slot, e) tt
  | inr e ↦
      rw (claim_slot, e)
        (update-Follows (claimable now id) (held_until (now + hold_ms)) d.slots (λ x. refl)
          (λ x h. to_held x.status (ground arith)))
]

pub confirm_held-Follows :
    (now hash : ℕ) (b : Booking) (x : Slot) (d : Desk)
    → Returns (λ r. Follows d.slots r.1.slots) (confirm_held now hash b x d)
unfolding confirm_held announce_confirmation
confirm_held-Follows now hash b x d = elim (Bool-cases (host_disconnecting x.host d)) [
  | inl e ↦ rw (confirm_held, e) tt
  | inr e ↦
      rw (confirm_held, e)
        (Returns->>= (λ d₁. Follows d.slots d₁.slots) (λ r. Follows d.slots r.1.slots)
          (mark_confirmed now hash b x d) _ (mark_confirmed-Follows now hash b x d) (λ d₁ h. h))
]

release_booking-Follows :
    (now : ℕ) (b : Booking) (d : Desk)
    → Returns (λ d₁. Follows d.slots d₁.slots) (release_booking now b d)
unfolding release_booking
release_booking-Follows now b d = elim (Bool-cases (count_where (same_booking b) d.bookings == 0)) [
  | inl e ↦ rw (release_booking, e) tt
  | inr e ↦ elim (Bool-cases (count_where (booked_slot b.slot_id) d.slots == 0)) [
    | inl f ↦ rw (release_booking, e, f) tt
    | inr f ↦
        rw (release_booking, e, f)
          (update-Follows (booked_slot b.slot_id) open_again d.slots (λ x. refl)
            (λ x h. to_freed x.status (ground arith)))
  ]
]

old_delete-Follows :
    (now : ℕ) (b : Booking) (x : Slot) (calendar : Option ℕ) (event : Option EventId)
    (xs : List Slot) (d : Desk)
    → Follows xs d.slots
    → Follows xs (enqueue_old_delete now b x calendar event d).1.slots
unfolding enqueue_old_delete
old_delete-Follows now b x none event xs d h = h
old_delete-Follows now b x (some c) none xs d h = h
old_delete-Follows now b x (some c) (some e) xs d h = h

cancel_read-Follows :
    (now : ℕ) (b : Booking) (x : Slot) (d : Desk)
    → Returns (λ r. Follows d.slots r.1.slots) (cancel_read now b x d)
unfolding cancel_read
cancel_read-Follows now b x d = elim (Bool-cases (is_canceled_booking b.status)) [
  | inl e ↦ rw (cancel_read, e) (λ i. stays)
  | inr e ↦ elim (Bool-cases (is_too_late now b x)) [
    | inl f ↦ rw (cancel_read, e, f) tt
    | inr f ↦
        rw (cancel_read, e, f)
          (Returns->>= (λ c. Unit {0}) (λ r. Follows d.slots r.1.slots) (old_calendar_id b x d) _
            (Returns-any (old_calendar_id b x d))
            (λ calendar u.
              Returns->>= (λ d₁. Follows d.slots d₁.slots) (λ r. Follows d.slots r.1.slots)
                (release_booking now b d) _ (release_booking-Follows now b d)
                (λ d₁ h. old_delete-Follows now b x calendar (old_event_id b x) d.slots d₁ h)))
  ]
]

pub cancel_by_id-Follows :
    (now id : ℕ) (d : Desk) → Returns (λ r. Follows d.slots r.1.slots) (cancel_by_id now id d)
unfolding cancel_by_id
cancel_by_id-Follows now id d = elim (Option-cases (with_slot id d)) [
  | inl e ↦ rw (cancel_by_id, e) tt
  | inr ((b, x), e) ↦ rw (cancel_by_id, e) (cancel_read-Follows now b x d)
]

-- A slot is taken and freed at once only by a move of a booking to the slot it is in.
to_moved :
    (s : SlotStatus) (q : Bool)
    → is_open_slot s ≡ true
    → some s ↝ (if q then some open_slot else some booked)
to_moved open_slot true h = stays
to_moved open_slot false h = moved_here
to_moved held q h = cc
to_moved booked q h = cc
to_moved blocked q h = cc
to_moved canceled_slot q h = cc

move_slots-Follows :
    (now new host old : ℕ) (xs : List Slot)
    → Follows xs (
        update_where
          (booked_slot old)
          open_again
          (update_where (may_take now new host) take_slot xs))
move_slots-Follows now new host old xs i =
    let key = λ (x : Slot). x.id in
    let ys = update_where (may_take now new host) take_slot xs in
    let first = row-update_where key (may_take now new host) take_slot (λ x. refl) i xs in
    let second = row-update_where key (booked_slot old) open_again (λ x. refl) i ys in
    elim (Option-cases (slot_at i xs)) [
      | inl e ↦ rw (second, first, e) stays
      | inr (x, e) ↦ elim (Bool-cases (may_take now new host x)) [
        | inl h ↦ elim (Bool-cases (x.id == old)) [
          | inl k ↦ rw (second, first, e, h, k) (to_moved x.status true (ground arith))
          | inr k ↦ rw (second, first, e, h, k) (to_moved x.status false (ground arith))
        ]
        | inr h ↦ elim (Bool-cases (booked_slot old x)) [
          | inl k ↦ rw (second, first, e, h, k) (to_freed x.status (ground arith))
          | inr k ↦ rw (second, first, e, h, k) stays
        ]
      ]
    ]

move_rows-Follows :
    (now new : ℕ) (b : Booking) (x : Slot) (d : Desk)
    → Returns (λ r. Follows d.slots r.1.slots) (move_rows now b x new d)
unfolding move_rows
move_rows-Follows now new b x d =
    elim (Bool-cases (count_where (may_take now new x.host) d.slots == 0)) [
      | inl e ↦ rw (move_rows, e) tt
      | inr e ↦
          elim (Option-cases
            (slot_at new (update_where (may_take now new x.host) take_slot d.slots))) [
              | inl f ↦ rw (move_rows, e, f) tt
              | inr (next, f) ↦ elim (Bool-cases (count_where (same_booking b) d.bookings == 0)) [
                | inl g ↦ rw (move_rows, e, f, g) tt
                | inr g ↦
                    elim (Bool-cases (
                      count_where (booked_slot b.slot_id)
                        (update_where (may_take now new x.host) take_slot d.slots)
                      == 0)) [
                        | inl h ↦ rw (move_rows, e, f, g, h) tt
                        | inr h ↦
                            rw (move_rows, e, f, g, h)
                              (move_slots-Follows now new x.host b.slot_id d.slots)
                      ]
              ]
            ]
    ]

move_read-Follows :
    (now new : ℕ) (b : Booking) (x : Slot) (d : Desk)
    → Returns (λ r. Follows d.slots r.1.slots) (move_read now b x new d)
unfolding move_read queue_move
move_read-Follows now new b x d =
    Returns->>= (λ r. Follows d.slots r.1.slots) (λ r. Follows d.slots r.1.slots)
      (move_rows now b x new d) _ (move_rows-Follows now new b x d)
      (λ r h.
        Returns->>= (λ c. Unit {0}) (λ r. Follows d.slots r.1.slots) (old_calendar_id b x r.1) _
          (Returns-any (old_calendar_id b x r.1))
          (λ calendar u. old_delete-Follows now b x calendar (old_event_id b x) d.slots r.1 h))

pub move-Follows :
    (now new : ℕ) (was : Booking) (was_slot : Slot) (d : Desk)
    → Returns (λ r. Follows d.slots r.1.slots) (move now was was_slot new d)
unfolding move
move-Follows now new was was_slot d = elim (Bool-cases (host_disconnecting was_slot.host d)) [
  | inl e ↦ rw (move, e) tt
  | inr e ↦ elim (Option-cases (with_slot was.id d)) [
    | inl f ↦ rw (move, e, f) tt
    | inr ((b, x), f) ↦ elim (Bool-cases (is_confirmed b.status && b.slot_id == was.slot_id)) [
      | inl g ↦ rw (move, e, f, g) (move_read-Follows now new b x d)
      | inr g ↦ rw (move, e, f, g) tt
    ]
  ]
]
