-- ===== src/Consultation/Diagram/Refines.antt =====
-- Every write on the tables refines the diagram of one slot.
use spottex_test.Consultation.Diagram.Synced.{run_job-Follows}
use spottex_test.Common.{ℕ, refl, List, arith, find_many, ◌-◌, length, Gives-some, Returns-ok}
use spottex_test.Consultation.Model.{Desk}
use spottex_test.Consultation.Agrees.Base.{IsSound}
use spottex_test.Consultation.Holding.{lapsed, release_slot, release_expired, claim_slot}
use spottex_test.Consultation.Verify.{give_up, confirm_held}
use spottex_test.Consultation.Cancel.{cancel_by_id}
use spottex_test.Consultation.Reschedule.{move}
use spottex_test.Consultation.Slots.{generate_slots, write_removal}
use spottex_test.Consultation.Slots.{collides, spread, free_candidates}
use spottex_test.Consultation.Steps.{
  ◌⟶◌, releases, claims, blocks, gives_up, confirms, cancels, moves, adds, generates, patches,
  removes, closes, runs, connects, queues, IsTimely,
}
use spottex_test.Consultation.Diagram.Edges.{stays, Follows, update-Follows, to_open}
use spottex_test.Consultation.Diagram.Guests.{
  give_up-Follows, confirm_held-Follows, claim_slot-Follows, cancel_by_id-Follows, move-Follows,
}
use spottex_test.Consultation.Diagram.Hosts.{
  block_slot-Follows, create_many-Follows, add_slot-Follows, patch_slot-Follows,
  write_removal-Follows, close_booking-Follows,
}

-- Each write on the tables moves each slot along one edge of the diagram of its states or leaves it, when
-- slots and bookings agree before it, whatever it has read; a removal does so if the slot may still be
-- removed when it is written.
pub step-Follows : {d e : Desk} (step : d ⟶ e) → IsTimely step → IsSound d → Follows d.slots e.slots
unfolding release_expired generate_slots IsTimely
step-Follows (releases {d = d} now) t a =
    update-Follows (lapsed now) release_slot d.slots (λ x. refl)
      (λ x h. to_open x.status (ground arith))
step-Follows (claims {d = d} {d' = d'} now id i g h) t a =
    Gives-some (λ (r : ℕ × Desk). Follows d.slots r.1.slots) (claim_slot now g id d) (i, d') h
      (claim_slot-Follows now id g d)
step-Follows (blocks {d = d} id) t a = block_slot-Follows id d
step-Follows (gives_up {d = d} {d' = d'} now b h) t a =
    Returns-ok (λ (e : Desk). Follows d.slots e.slots) (give_up now b d) d' h
      (give_up-Follows now b d)
step-Follows (confirms {d = d} {d' = d'} now hash job b x unmoved h) t a =
    Returns-ok (λ (r : ℕ × Desk). Follows d.slots r.1.slots) (confirm_held now hash b x d) (job, d')
      h (confirm_held-Follows now hash b x d)
step-Follows (cancels {d = d} {d' = d'} now id jobs h) t a =
    Returns-ok (λ (r : List ℕ × Desk). Follows d.slots r.1.slots) (cancel_by_id now id d) (jobs, d')
      h (cancel_by_id-Follows now id d)
step-Follows (moves {d = d} {d' = d'} now new b x jobs h) t a =
    Returns-ok (λ (r : List ℕ × Desk). Follows d.slots r.1.slots) (move now b x new d) (jobs, d') h
      (move-Follows now new b x d)
step-Follows (adds {d = d} host start finish) t a = add_slot-Follows host start finish d
step-Follows (generates {d = d} now host week_start week_end target candidates busy) t a =
    let existing = find_many (collides host week_start week_end) d.slots in
    create_many-Follows host
      (spread (free_candidates now existing busy candidates) (target - length existing)) d
step-Follows (patches {d = d} host id opens) t a = patch_slot-Follows host id opens d
step-Follows (removes {d = d} {d' = d'} host id n h) t a =
    Gives-some (λ (e : Desk). Follows d.slots e.slots) (write_removal id n d) d' h
      (write_removal-Follows host id n d t a.slot_once)
step-Follows (closes {d = d} now host id outcome) t a = close_booking-Follows now host id outcome d
step-Follows (runs {d = d} google now job) t a = run_job-Follows google now job d
step-Follows (connects cs) t a = λ i. stays
step-Follows (queues o) t a = λ i. stays
