-- ===== src/Consultation/Kept/Reach.antt =====
-- Along every write a pending booking keeps its slot.
use spottex_test.Common.{◌≡◌, subst, sym, some, true, arith, ◌&&◌}
use spottex_test.Consultation.Kept.Base.{
  StayPut, same-StayPut, update-StayPut, then-StayPut, booking_at,
}
use spottex_test.Consultation.Agrees.Managed.{IsUnmoved}
use spottex_test.Consultation.Agrees.Base.{slot_at}
use spottex_test.Consultation.Model.{is_pending_booking, expired_booking, Booking}
use spottex_test.Consultation.Holding.{has_lapsed}
use spottex_test.Consultation.Steps.{◌⟶*◌, here, later}
use spottex_test.Common.{ℕ, refl, List, arith, find_many, ◌-◌, length, Gives-some, Returns-ok}
use spottex_test.Consultation.Model.{Desk}
use spottex_test.Consultation.Holding.{release_expired, claim_slot}
use spottex_test.Consultation.Verify.{give_up, confirm_held}
use spottex_test.Consultation.Cancel.{cancel_by_id}
use spottex_test.Consultation.Reschedule.{move}
use spottex_test.Consultation.Slots.{generate_slots}
use spottex_test.Consultation.Slots.{collides, spread, free_candidates}
use spottex_test.Consultation.Steps.{
  ◌⟶◌, releases, claims, blocks, gives_up, confirms, cancels, moves, adds, generates, patches,
  removes, closes, runs, connects, queues,
}
use spottex_test.Consultation.Kept.Guests.{
  give_up-StayPut, confirm_held-StayPut, claim_slot-StayPut, cancel_by_id-StayPut, move-StayPut,
}
use spottex_test.Consultation.Kept.Hosts.{
  block_slot-StayPut, create_many-bookings, add_slot-bookings, patch_slot-bookings,
  write_removal-bookings, close_booking-StayPut, run_job-StayPut,
}

step-StayPut : {d e : Desk} → d ⟶ e → StayPut d.bookings e.bookings
unfolding release_expired generate_slots
step-StayPut (releases {d = d} now) =
    update-StayPut (λ b. is_pending_booking b.status && has_lapsed now (slot_at b.slot_id d.slots))
      (λ b. record b { status = expired_booking }) d.bookings (λ b. refl) (λ b h. cc)
step-StayPut (claims {d = d} {d' = d'} now id i g h) =
    Gives-some (λ (r : ℕ × Desk). StayPut d.bookings r.1.bookings) (claim_slot now g id d) (i, d') h
      (claim_slot-StayPut now id g d)
step-StayPut (blocks {d = d} id) = block_slot-StayPut id d
step-StayPut (gives_up {d = d} {d' = d'} now b h) =
    Returns-ok (λ (e : Desk). StayPut d.bookings e.bookings) (give_up now b d) d' h
      (give_up-StayPut now b d)
step-StayPut (confirms {d = d} {d' = d'} now hash job b x unmoved h) =
    Returns-ok (λ (r : ℕ × Desk). StayPut d.bookings r.1.bookings) (confirm_held now hash b x d)
      (job, d') h (confirm_held-StayPut now hash b x d)
step-StayPut (cancels {d = d} {d' = d'} now id jobs h) =
    Returns-ok (λ (r : List ℕ × Desk). StayPut d.bookings r.1.bookings) (cancel_by_id now id d)
      (jobs, d') h (cancel_by_id-StayPut now id d)
step-StayPut (moves {d = d} {d' = d'} now new b x jobs h) =
    Returns-ok (λ (r : List ℕ × Desk). StayPut d.bookings r.1.bookings) (move now b x new d)
      (jobs, d') h (move-StayPut now new b x d)
step-StayPut (adds {d = d} host start finish) =
    subst (StayPut d.bookings) (sym (add_slot-bookings host start finish d))
      (same-StayPut d.bookings)
step-StayPut (generates {d = d} now host week_start week_end target candidates busy) =
    let existing = find_many (collides host week_start week_end) d.slots in
    subst (StayPut d.bookings)
      (sym (
        create_many-bookings host
          (spread (free_candidates now existing busy candidates) (target - length existing)) d))
      (same-StayPut d.bookings)
step-StayPut (patches {d = d} host id opens) =
    subst (StayPut d.bookings) (sym (patch_slot-bookings host id opens d)) (same-StayPut d.bookings)
step-StayPut (removes {d = d} {d' = d'} host id n h) =
    subst (StayPut d.bookings) (sym (write_removal-bookings id n d d' h)) (same-StayPut d.bookings)
step-StayPut (closes {d = d} now host id outcome) = close_booking-StayPut now host id outcome d
step-StayPut (runs {d = d} google now job) = run_job-StayPut google now job d
step-StayPut (connects {d = d} cs) = same-StayPut d.bookings
step-StayPut (queues {d = d} o) = same-StayPut d.bookings

reach-StayPut : {d e : Desk} → d ⟶* e → StayPut d.bookings e.bookings
reach-StayPut (here {d = d}) = same-StayPut d.bookings
reach-StayPut (later {d = d} {e = e} {f = f} step steps) =
    then-StayPut d.bookings e.bookings f.bookings (step-StayPut step) (reach-StayPut steps)

-- A booking that was read at any time is, as long as it is pending, for the slot that it was read
-- with, whatever has been written since: so the transaction of a confirmation books the slot that the
-- request has read, as the step that confirms supposes.
pub reach-IsUnmoved :
    {d e : Desk} (b : Booking) → booking_at b.id d.bookings ≡ some b → d ⟶* e → IsUnmoved b e
reach-IsUnmoved b read steps c found waits =
    let (c', at, same) = reach-StayPut steps b.id b read in
    let agree : c' ≡ c = ground arith in
    subst (λ x. x.slot_id ≡ b.slot_id) agree
      ((same (subst (λ x. is_pending_booking x.status ≡ true) (sym agree) waits)).1)
