-- ===== src/Consultation/Agrees/Moved.antt =====
-- The move of a booking to another slot keeps slots and bookings in agreement.
use spottex_test.Common.{
  ℕ, ◌≡◌, refl, Bool, true, false, some, List, ◌==◌, update_where, count_where, row, arith,
  count_where_ids, row_counted_some, row_key, count_update_hit, flag_here, flag_update, row_counts,
}
use spottex_test.Consultation.Model.{Slot, Booking, is_confirmed, is_open_slot}
use spottex_test.Consultation.Agrees.Base.{
  Agrees, pending_for, confirmed_for, held_slot, taken_slot, slot_at,
}
use spottex_test.Consultation.Cancel.{same_booking, booked_slot, open_again}
use spottex_test.Consultation.Reschedule.{may_take, take_slot, move_booking}

module _ {xs : List Slot} {bs : List Booking} {n m : ℕ} (a : Agrees xs bs n m) where
  -- A slot that is open has no confirmed booking.
  not_confirmed_at :
      (id k : ℕ) (y : Slot) (b : Booking)
      → slot_at id xs ≡ some y
      → is_open_slot y.status ≡ true
      → row (λ (b : Booking). b.id) k bs ≡ some b
      → is_confirmed b.status ≡ true
      → (b.slot_id == id) ≡ false
  not_confirmed_at id k y b at opened there conf = ground (
    arith,
    a.one_confirmed id,
    row_counts (λ (b : Booking). b.id) k (confirmed_for id) bs b there,
  )

  pub move-Agrees :
      (now new host : ℕ) (b : Booking) (next : Slot)
      → (count_where (may_take now new host) xs == 0) ≡ false
      → slot_at new (update_where (may_take now new host) take_slot xs) ≡ some next
      → (count_where (same_booking b) bs == 0) ≡ false
      → (count_where (booked_slot b.slot_id) (update_where (may_take now new host) take_slot xs)
          == 0)
        ≡ false
      → Agrees
          (update_where
            (booked_slot b.slot_id)
            open_again
            (update_where (may_take now new host) take_slot xs))
          (update_where (same_booking b) (move_booking next) bs)
          n
          m
  move-Agrees now new host b next some_y next_at some_b some_z =
      let key = λ (x : Slot). x.id in
      let ys = update_where (may_take now new host) take_slot xs in
      let (y, at, hit) =
        row_counted_some key new (may_take now new host) (λ x e. ground arith) xs (a.slot_once new)
          some_y in
      let (c, there, meets) =
        row_counted_some (λ (c : Booking). c.id) b.id (same_booking b) (λ c e. ground arith) bs
          (a.booking_once b.id) some_b in
      let once =
        λ (i : ℕ). count_where_ids key (may_take now new host) take_slot (λ x. refl) xs i in
      let (z, at_old, hit_old) =
        row_counted_some key b.slot_id (booked_slot b.slot_id) (λ x e. ground arith) ys
          (ground (arith, once b.slot_id, a.slot_once b.slot_id)) some_z in
      let apart = not_confirmed_at new b.id y c at (ground arith) there (ground arith) in
      let taken = λ (q : Slot → Bool) (i : ℕ).
        flag_update key new i (may_take now new host) q take_slot (λ x. refl) (λ x e. ground arith)
          xs y at hit in
      let was = λ (q : Slot → Bool) (i : ℕ). flag_here key new i q xs y at in
      let opened = λ (q : Slot → Bool) (i : ℕ).
        flag_update key b.slot_id i (booked_slot b.slot_id) q open_again (λ x. refl)
          (λ x e. ground arith) ys z at_old hit_old in
      let before = λ (q : Slot → Bool) (i : ℕ). flag_here key b.slot_id i q ys z at_old in
      let counted = λ (r : Booking → Bool).
        count_update_hit (λ (b : Booking). b.id) b.id (same_booking b) r (move_booking next)
          (λ c e. ground arith) bs c (a.booking_once b.id) there meets in
      let named = row_key key new ys next_at in
      record {
        slot_once = λ i. ground (
          arith,
          count_where_ids key (booked_slot b.slot_id) open_again (λ x. refl) ys i,
          once i,
          a.slot_once i,
        );
        slot_fresh = λ i le. ground (
          arith,
          count_where_ids key (booked_slot b.slot_id) open_again (λ x. refl) ys i,
          once i,
          a.slot_fresh i,
        );
        booking_once = λ i. ground (
          arith,
          count_where_ids (λ (b : Booking). b.id) (same_booking b) (move_booking next) (λ x. refl)
              bs i,
          a.booking_once i,
        );
        booking_fresh = λ i le. ground (
          arith,
          count_where_ids (λ (b : Booking). b.id) (same_booking b) (move_booking next) (λ x. refl)
              bs i,
          a.booking_fresh i,
        );
        one_pending = λ i. ground (
          arith,
          taken held_slot i,
          was held_slot i,
          opened held_slot i,
          before held_slot i,
          counted (pending_for i),
          a.one_pending i,
        );
        one_confirmed = λ i. ground (
          arith,
          taken taken_slot i,
          was taken_slot i,
          opened taken_slot i,
          before taken_slot i,
          counted (confirmed_for i),
          a.one_confirmed i,
        );
      }
