-- ===== src/Consultation/Agrees/Bookings.antt =====
-- The requests of a guest keep slots and bookings in agreement.
use spottex_test.Common.{
  ℕ, suc, ◌+◌, ◌≤◌, ◌≡◌, refl, Bool, false, ◌&&◌, List, [], ◌∷◌, ◌++◌, ◌==◌, inl, inr, Bool-cases,
  Option-cases, update_where, count_where, arith, flag_of, count_where_ids, row_counted_some,
  count_where-append, row-update_where, flag_here, flag_update, if◌then◌else◌, ==→eq,
}
use spottex_test.Consultation.Model.{expired_booking, Slot, Booking, is_pending_booking}
use spottex_test.Consultation.Holding.{
  Guest, claimable, held_until, hold_ms, held_booking, lapsed, has_lapsed, release_slot,
}
use spottex_test.Consultation.Agrees.Base.{
  Agrees, Agrees-updated, pending_for, confirmed_for, held_slot, taken_slot, slot_at,
}

module _ {xs : List Slot} {bs : List Booking} {n m : ℕ} (a : Agrees xs bs n m) where
  -- A slot that is open is claimed, with a new pending booking.
  pub claim-Agrees :
      (now id : ℕ) (g : Guest)
      → (count_where (claimable now id) xs == 0) ≡ false
      → Agrees
          (update_where (claimable now id) (held_until (now + hold_ms)) xs)
          (bs ++ held_booking now g m id ∷ [])
          n
          (suc m)
  claim-Agrees now id g there =
      let (x, at, hit) =
        row_counted_some (λ (x : Slot). x.id) id (claimable now id) (λ x e. ground arith) xs
          (a.slot_once id) there in
      let slot_flag = λ (q : Slot → Bool) (i : ℕ).
        flag_update (λ (x : Slot). x.id) id i (claimable now id) q (held_until (now + hold_ms))
          (λ x. refl) (λ x e. ground arith) xs x at hit in
      let slot_was = λ (q : Slot → Bool) (i : ℕ). flag_here (λ (x : Slot). x.id) id i q xs x at in
      record {
        slot_once = λ i. ground (
          arith,
          count_where_ids (λ (x : Slot). x.id) (claimable now id) (held_until (now + hold_ms))
              (λ x. refl) xs i,
          a.slot_once i,
        );
        slot_fresh = λ i le. ground (
          arith,
          count_where_ids (λ (x : Slot). x.id) (claimable now id) (held_until (now + hold_ms))
              (λ x. refl) xs i,
          a.slot_fresh i le,
        );
        booking_once = λ i. ground (
          arith,
          count_where-append (λ (b : Booking). b.id == i) bs (held_booking now g m id),
          a.booking_once i,
          a.booking_fresh i,
        );
        booking_fresh = λ i le. ground (
          arith,
          count_where-append (λ (b : Booking). b.id == i) bs (held_booking now g m id),
          a.booking_fresh i,
        );
        one_pending = λ i. ground (
          arith,
          slot_flag held_slot i,
          slot_was held_slot i,
          a.one_pending i,
          count_where-append (pending_for i) bs (held_booking now g m id),
        );
        one_confirmed = λ i. ground (
          arith,
          slot_flag taken_slot i,
          slot_was taken_slot i,
          a.one_confirmed i,
          count_where-append (confirmed_for i) bs (held_booking now g m id),
        );
      }

  -- Holds that have expired are released, with their bookings.
  expired_pending :
      (now i : ℕ) (ys : List Booking)
      → count_where (pending_for i) (
          update_where
            (λ b. is_pending_booking b.status && has_lapsed now (slot_at b.slot_id xs))
            (λ b. record b { status = expired_booking })
            ys)
        ≡ (if has_lapsed now (slot_at i xs) then 0 else count_where (pending_for i) ys)
  unfolding count_where update_where
  expired_pending now i [] = ground arith
  expired_pending now i (b ∷ ys) = elim (Bool-cases (b.slot_id == i)) [
    | inl e ↦ ground (arith, expired_pending now i ys, ==→eq b.slot_id i e)
    | inr ne ↦ ground (arith, expired_pending now i ys)
  ]

  expired_confirmed :
      (now i : ℕ) (ys : List Booking)
      → count_where (confirmed_for i) (
          update_where
            (λ b. is_pending_booking b.status && has_lapsed now (slot_at b.slot_id xs))
            (λ b. record b { status = expired_booking })
            ys)
        ≤ count_where (confirmed_for i) ys
  unfolding count_where update_where
  expired_confirmed now i [] = ground arith
  expired_confirmed now i (b ∷ ys) = ground (arith, expired_confirmed now i ys)

  released_flag :
      (q : Slot → Bool) (now i : ℕ)
      → flag_of q (slot_at i (update_where (lapsed now) release_slot xs)) ≡ (
          if has_lapsed now (slot_at i xs)
          then flag_of (λ x. q (release_slot x)) (slot_at i xs)
          else flag_of q (slot_at i xs))
  released_flag q now i = elim (Option-cases (slot_at i xs)) [
    | inl e ↦
        ground
          (arith, row-update_where (λ (x : Slot). x.id) (lapsed now) release_slot (λ x. refl) i xs)
    | inr (x, e) ↦
        ground
          (arith, row-update_where (λ (x : Slot). x.id) (lapsed now) release_slot (λ x. refl) i xs)
  ]

  pub release-Agrees :
      (now : ℕ)
      → Agrees
          (update_where (lapsed now) release_slot xs)
          (update_where
            (λ b. is_pending_booking b.status && has_lapsed now (slot_at b.slot_id xs))
            (λ b. record b { status = expired_booking })
            bs)
          n
          m
  release-Agrees now =
      Agrees-updated a (lapsed now) release_slot (λ x. refl)
        (λ b. is_pending_booking b.status && has_lapsed now (slot_at b.slot_id xs))
        (λ b. record b { status = expired_booking }) (λ b. refl)
        (λ i. elim (Option-cases (slot_at i xs)) [
          | inl e ↦
              ground
                (arith, released_flag held_slot now i, expired_pending now i bs, a.one_pending i)
          | inr (x, e) ↦
              ground
                (arith, released_flag held_slot now i, expired_pending now i bs, a.one_pending i)
        ])
        (λ i. elim (Option-cases (slot_at i xs)) [
          | inl e ↦
              ground (
                arith,
                released_flag taken_slot now i,
                expired_confirmed now i bs,
                a.one_confirmed i,
              )
          | inr (x, e) ↦
              ground (
                arith,
                released_flag taken_slot now i,
                expired_confirmed now i bs,
                a.one_confirmed i,
              )
        ])
