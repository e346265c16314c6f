-- ===== src/Consultation/Agrees/Desk.antt =====
-- What hosts do to the desk keeps slots and bookings in agreement.
use spottex_test.Common.{
  ℕ, ◌≡◌, refl, Bool, true, is_some, Gives, ◌&&◌, some, ◌==◌, inl, inr, Bool-cases, Option-cases,
  update_where, count_where, find_first, arith, flag_here, flag_update, if◌then◌else◌, ==→eq,
  find_first_holds, row-find_first,
}
use spottex_test.Consultation.Model.{Slot, Booking, Desk, is_open_slot}
use spottex_test.Consultation.Agrees.Base.{IsSound, Agrees-slots, held_slot, taken_slot}
use spottex_test.Consultation.Holding.{block_slot}
use spottex_test.Consultation.Slots.{
  add_slot, patch_slot, find_removable, write_removal, removable, closable, close_booking, Outcome,
}
use spottex_test.Consultation.Agrees.Offered.{
  insert-Agrees, idle-Agrees, remove-Agrees, close-Agrees,
}
use spottex_test.Consultation.Slots.{collides, same_start, patchable, cancel_slot}
use spottex_test.Consultation.Model.{open_slot, blocked}

pub block_slot-IsSound : (id : ℕ) (d : Desk) → IsSound d → IsSound (block_slot id d)
unfolding block_slot
block_slot-IsSound id d a =
    idle-Agrees a (λ x. x.id == id && is_open_slot x.status) (λ x. record x { status = blocked })
      (λ x. refl) (λ x e. ground arith) (λ x e. ground arith)

pub add_slot-IsSound :
    (host start finish : ℕ) (d : Desk) → IsSound d → IsSound (add_slot host start finish d).1
unfolding add_slot
add_slot-IsSound host start finish d a =
    elim (Bool-cases (count_where (collides host start finish) d.slots == 0)) [
      | inl e ↦ elim (Bool-cases (count_where (same_start host start) d.slots == 0)) [
        | inl f ↦ rw (add_slot, e, f) (insert-Agrees a host start finish)
        | inr f ↦ rw (add_slot, e, f) a
      ]
      | inr e ↦ rw (add_slot, e) a
    ]

pub patch_slot-IsSound :
    (host id : ℕ) (opens : Bool) (d : Desk) → IsSound d → IsSound (patch_slot host id opens d).1
unfolding patch_slot
patch_slot-IsSound host id opens d a =
    elim (Bool-cases (count_where (patchable host id) d.slots == 0)) [
      | inl e ↦ rw (patch_slot, e) a
      | inr e ↦
          rw (patch_slot, e)
            (idle-Agrees a (patchable host id)
              (λ x. record x { status = if opens then open_slot else blocked }) (λ x. refl)
              (λ x h. ground arith) (λ x h. ground arith))
    ]

cancel_slot-Agrees :
    (host id : ℕ) (x : Slot) (d : Desk)
    → IsSound d
    → find_first (removable host id) d.slots ≡ some x
    → IsSound (record d { slots = update_where (λ y. y.id == id) cancel_slot d.slots })
cancel_slot-Agrees host id x d a found =
    let key = λ (x : Slot). x.id in
    let holds = find_first_holds (removable host id) d.slots x found in
    let at = row-find_first key (removable host id) d.slots x (a.slot_once x.id) found in
    let named = ==→eq x.id id (ground arith) in
    let slot_flag = λ (q : Slot → Bool) (i : ℕ).
      flag_update key x.id i (λ y. y.id == id) q cancel_slot (λ x. refl) (λ y e. ground arith)
        d.slots x at (ground arith) in
    let was = λ (q : Slot → Bool) (i : ℕ). flag_here key x.id i q d.slots x at in
    Agrees-slots a (λ y. y.id == id) cancel_slot (λ x. refl)
      (λ i. ground (arith, slot_flag held_slot i, was held_slot i))
      (λ i. ground (arith, slot_flag taken_slot i, was taken_slot i))

pub write_removal-IsSound :
    (host id n : ℕ) (d : Desk)
    → is_some (find_removable host id d) ≡ true
    → IsSound d
    → Gives IsSound (write_removal id n d)
unfolding find_removable write_removal
write_removal-IsSound host id n d may a =
    elim (Option-cases (find_first (removable host id) d.slots)) [
      | inl e ↦ absurd (ground arith)
      | inr (x, e) ↦ elim (Bool-cases (count_where (λ (y : Slot). y.id == id) d.slots == 0)) [
        | inl f ↦ rw (write_removal, f) tt
        | inr f ↦ elim (Bool-cases (n == 0)) [
          | inr g ↦ rw (write_removal, f, g) (cancel_slot-Agrees host id x d a e)
          | inl g ↦
              elim (Bool-cases (count_where (λ (b : Booking). b.slot_id == id) d.bookings == 0)) [
                | inl h ↦ rw (write_removal, f, g, h) (remove-Agrees a host id x e)
                | inr h ↦ rw (write_removal, f, g, h) tt
              ]
        ]
      ]
    ]

pub close_booking-IsSound :
    (now host id : ℕ) (outcome : Outcome) (d : Desk)
    → IsSound d
    → IsSound (close_booking now host id outcome d).1
unfolding close_booking
close_booking-IsSound now host id outcome d a =
    elim (Option-cases (find_first (closable now host id d.slots) d.bookings)) [
      | inl e ↦ rw (close_booking, e) a
      | inr (b, e) ↦ rw (close_booking, e) (close-Agrees a now host id outcome b e)
    ]
