-- ===== src/Consultation/Steps.antt =====
-- The writes on the consultation tables as steps. A request reads its rows before its transaction:
-- what it has read is any booking and slot, as other requests may have written since; a booking that
-- is to be confirmed is one whose slot is still the one read.
use spottex_test.Common.{ℕ, ◌≡◌, Bool, true, some, is_some, List, ok}
use spottex_test.Consultation.Model.{Slot, Booking, HostCalendar, Outbox, Desk, CalendarJob}
use spottex_test.Consultation.Calendar.Google.{Google, Interval}
use spottex_test.Consultation.Calendar.Worker.{run_job}
use spottex_test.Consultation.Holding.{Guest, release_expired, claim_slot, block_slot}
use spottex_test.Consultation.Verify.{give_up, confirm_held}
use spottex_test.Consultation.Cancel.{cancel_by_id}
use spottex_test.Consultation.Reschedule.{move}
use spottex_test.Consultation.Slots.{
  add_slot, generate_slots, patch_slot, find_removable, write_removal, Outcome, close_booking,
}
use spottex_test.Consultation.Agrees.Managed.{IsUnmoved}

infix 20 ◌⟶◌
pub data ◌⟶◌ : Desk → Desk → Type 0 where
  releases : {d : Desk} (now : ℕ) → d ⟶ release_expired now d
  claims : {d d' : Desk} (now id i : ℕ) (g : Guest) → claim_slot now g id d ≡ some (i, d') → d ⟶ d'
  blocks : {d : Desk} (id : ℕ) → d ⟶ block_slot id d
  gives_up : {d d' : Desk} (now : ℕ) (b : Booking) → give_up now b d ≡ ok d' → d ⟶ d'
  confirms :
      {d d' : Desk} (now hash job : ℕ) (b : Booking) (x : Slot)
      → IsUnmoved b d
      → confirm_held now hash b x d ≡ ok (job, d')
      → d ⟶ d'
  cancels :
      {d d' : Desk} (now id : ℕ) (jobs : List ℕ) → cancel_by_id now id d ≡ ok (jobs, d') → d ⟶ d'
  moves :
      {d d' : Desk} (now new_slot : ℕ) (b : Booking) (x : Slot) (jobs : List ℕ)
      → move now b x new_slot d ≡ ok (jobs, d')
      → d ⟶ d'
  adds : {d : Desk} (host start finish : ℕ) → d ⟶ (add_slot host start finish d).1
  generates :
      {d : Desk} (now host week_start week_end target : ℕ) (candidates busy : List Interval)
      → d ⟶ generate_slots now host week_start week_end target candidates busy d
  patches : {d : Desk} (host id : ℕ) (opens : Bool) → d ⟶ (patch_slot host id opens d).1
  removes : {d d' : Desk} (host id n : ℕ) → write_removal id n d ≡ some d' → d ⟶ d'
  closes :
      {d : Desk} (now host id : ℕ) (outcome : Outcome) → d ⟶ (close_booking now host id outcome d).1
  runs : {d : Desk} (google : Google) (now : ℕ) (job : CalendarJob) → d ⟶ run_job google now job d
  connects : {d : Desk} (cs : List HostCalendar) → d ⟶ record d { calendars = cs }
  queues : {d : Desk} (o : Outbox) → d ⟶ record d { outbox = o }

-- A removal of a slot, which reads and writes outside a transaction, is timely if the slot may still be
-- removed when it is written. The other writes check their rows themselves.
unfoldable pub IsTimely : {d e : Desk} → d ⟶ e → Type 0
unfolding find_removable
IsTimely (removes {d = d} host id n h) = is_some (find_removable host id d) ≡ true
IsTimely _ = Unit {0}

-- The desks that any sequence of writes reaches.
infix 20 ◌⟶*◌
pub data ◌⟶*◌ : Desk → Desk → Type 0 where
  here : {d : Desk} → d ⟶* d
  later : {d e f : Desk} → d ⟶ e → e ⟶* f → d ⟶* f

unfoldable pub AreTimely : {d e : Desk} → d ⟶* e → Type 0
unfolding IsTimely
AreTimely here = Unit {0}
AreTimely (later step steps) = IsTimely step × AreTimely steps
