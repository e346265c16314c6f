-- ===== src/Consultation/Agrees/Managed.antt =====
-- The confirmation, the cancellation and the move of a booking keep slots and bookings in agreement.
use spottex_test.Common.{
  ℕ, ◌≡◌, refl, true, false, some, List, ◌==◌, update_where, count_where, row, arith,
  row_counted_some,
}
use spottex_test.Consultation.Model.{Slot, Booking, Desk, is_pending_booking}
use spottex_test.Consultation.Agrees.Base.{Agrees, Agrees-edited}
use spottex_test.Consultation.Verify.{
  waiting, waiting_there, its_slot, expire_booking, block_hold, book_slot, confirm_booking,
}
use spottex_test.Consultation.Cancel.{same_booking, booked_slot, cancel_booking, open_again}

-- A pending booking is still for the slot that it was read with.
abbrev pub IsUnmoved : Booking → Desk → Type 0
IsUnmoved b d =
    (c : Booking)
    → row (λ (c : Booking). c.id) b.id d.bookings ≡ some c
    → is_pending_booking c.status ≡ true
    → c.slot_id ≡ b.slot_id

module _ {xs : List Slot} {bs : List Booking} {n m : ℕ} (a : Agrees xs bs n m) where
  pub give_up-Agrees :
      (now : ℕ) (b : Booking)
      → (count_where (waiting_there b) bs == 0) ≡ false
      → (count_where (its_slot now b) xs == 0) ≡ false
      → Agrees
          (update_where (its_slot now b) block_hold xs)
          (update_where (waiting_there b) expire_booking bs)
          n
          m
  give_up-Agrees now b some_b some_x =
      let (c, there, meets) =
        row_counted_some (λ (c : Booking). c.id) b.id (waiting_there b) (λ c e. ground arith) bs
          (a.booking_once b.id) some_b in
      let (x, at, hit) =
        row_counted_some (λ (x : Slot). x.id) b.slot_id (its_slot now b) (λ x e. ground arith) xs
          (a.slot_once b.slot_id) some_x in
      Agrees-edited a b.slot_id (its_slot now b) block_hold (λ x. refl) (λ x e. ground arith) b.id
        (waiting_there b) expire_booking (λ c. refl) (λ c e. ground arith) x at hit c there meets
        (ground arith) (ground arith) (ground arith) (ground arith)

  pub confirm-Agrees :
      (now hash expires : ℕ) (b : Booking)
      → ((c : Booking)
          → row (λ (c : Booking). c.id) b.id bs ≡ some c
          → is_pending_booking c.status ≡ true
          → c.slot_id ≡ b.slot_id)
      → (count_where (its_slot now b) xs == 0) ≡ false
      → (count_where (waiting b) bs == 0) ≡ false
      → Agrees
          (update_where (its_slot now b) book_slot xs)
          (update_where (waiting b) (confirm_booking now hash expires) bs)
          n
          m
  confirm-Agrees now hash expires b unmoved some_x some_b =
      let (c, there, meets) =
        row_counted_some (λ (c : Booking). c.id) b.id (waiting b) (λ c e. ground arith) bs
          (a.booking_once b.id) some_b in
      let (x, at, hit) =
        row_counted_some (λ (x : Slot). x.id) b.slot_id (its_slot now b) (λ x e. ground arith) xs
          (a.slot_once b.slot_id) some_x in
      let same = unmoved c there (ground arith) in
      Agrees-edited a b.slot_id (its_slot now b) book_slot (λ x. refl) (λ x e. ground arith) b.id
        (waiting b) (confirm_booking now hash expires) (λ c. refl) (λ c e. ground arith) x at hit c
        there meets same same (ground arith) (ground arith)

  pub cancel-Agrees :
      (now : ℕ) (b : Booking)
      → (count_where (same_booking b) bs == 0) ≡ false
      → (count_where (booked_slot b.slot_id) xs == 0) ≡ false
      → Agrees
          (update_where (booked_slot b.slot_id) open_again xs)
          (update_where (same_booking b) (cancel_booking now) bs)
          n
          m
  cancel-Agrees now b some_b some_x =
      let (c, there, meets) =
        row_counted_some (λ (c : Booking). c.id) b.id (same_booking b) (λ c e. ground arith) bs
          (a.booking_once b.id) some_b in
      let (x, at, hit) =
        row_counted_some (λ (x : Slot). x.id) b.slot_id (booked_slot b.slot_id)
          (λ x e. ground arith) xs (a.slot_once b.slot_id) some_x in
      Agrees-edited a b.slot_id (booked_slot b.slot_id) open_again (λ x. refl) (λ x e. ground arith)
        b.id (same_booking b) (cancel_booking now) (λ c. refl) (λ c e. ground arith) x at hit c
        there meets (ground arith) (ground arith) (ground arith) (ground arith)
