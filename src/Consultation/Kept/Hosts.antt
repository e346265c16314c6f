-- ===== src/Consultation/Kept/Hosts.antt =====
-- What hosts and the calendar do leaves every pending booking at its slot.
use spottex_test.Common.{
  ℕ, ◌≡◌, refl, sym, subst, Bool, true, ◌&&◌, some, none, List, [], ◌∷◌, ◌==◌, inl, inr, Bool-cases,
  Option-cases, ok, throws, count_where, row, find_first, arith, Option, Result, Returns,
  Returns-any, Returns->>=,
}
use spottex_test.Consultation.Model.{EventId, Slot, Booking, Desk, is_booked}
use spottex_test.Consultation.Agrees.Base.{slot_at}
use spottex_test.Consultation.Calendar.Google.{Google}
use spottex_test.Consultation.Calendar.Worker.{run_job}
use spottex_test.Consultation.Holding.{block_slot}
use spottex_test.Consultation.Slots.{
  create_many, add_slot, patch_slot, write_removal, closable, close_booking, Outcome,
}
use spottex_test.Consultation.Slots.{insert_slot, same_start}
use spottex_test.Consultation.Calendar.Worker.{
  record_event, create_event, access, execute_create_job, execute_delete_job, execute_calendar_job,
  is_current, request_of, concluded, token_of, is_pending,
}
use spottex_test.Consultation.Calendar.Google.{
  GoogleError, get_google_access_token, create_google_calendar_event, delete_google_calendar_event,
}
use spottex_test.Consultation.Model.{CalendarJob, CalendarWork, creates, deletes, CreatePayload}
use spottex_test.Consultation.Calendar.Google.{Interval}
use spottex_test.Consultation.Kept.Base.{StayPut, same-StayPut, update-StayPut}
use spottex_test.Consultation.Slots.{attended, missed, close_as}
use spottex_test.Consultation.Model.{is_pending_booking}

closed_not_pending :
    {A : Type 0} (now : ℕ) (outcome : Outcome) (c : Booking)
    → is_pending_booking (close_as now outcome c).status ≡ true
    → A
closed_not_pending now attended c p = cc
closed_not_pending now missed c p = cc

pub block_slot-StayPut : (id : ℕ) (d : Desk) → StayPut d.bookings (block_slot id d).bookings
unfolding block_slot
block_slot-StayPut id d = same-StayPut d.bookings

pub create_many-bookings :
    (host : ℕ) (is : List Interval) (d : Desk) → (create_many host is d).bookings ≡ d.bookings
unfolding create_many
create_many-bookings host [] d = refl
create_many-bookings host (i ∷ is) d =
    elim (Bool-cases (count_where (same_start host i.start) d.slots == 0)) [
      | inl e ↦
          rw (create_many, e) (create_many-bookings host is (insert_slot host i.start i.finish d))
      | inr e ↦ rw (create_many, e) (create_many-bookings host is d)
    ]

pub add_slot-bookings :
    (host start finish : ℕ) (d : Desk) → (add_slot host start finish d).1.bookings ≡ d.bookings
unfolding add_slot
add_slot-bookings host start finish d = ground arith

pub patch_slot-bookings :
    (host id : ℕ) (opens : Bool) (d : Desk) → (patch_slot host id opens d).1.bookings ≡ d.bookings
unfolding patch_slot
patch_slot-bookings host id opens d = ground arith

pub write_removal-bookings :
    (id n : ℕ) (d e : Desk) → write_removal id n d ≡ some e → e.bookings ≡ d.bookings
unfolding write_removal
write_removal-bookings id n d e h = ground arith

pub close_booking-StayPut :
    (now host id : ℕ) (outcome : Outcome) (d : Desk)
    → StayPut d.bookings (close_booking now host id outcome d).1.bookings
unfolding close_booking
close_booking-StayPut now host id outcome d =
    elim (Option-cases (find_first (closable now host id d.slots) d.bookings)) [
      | inl e ↦ rw (close_booking, e) (same-StayPut d.bookings)
      | inr (b, e) ↦
          rw (close_booking, e)
            (update-StayPut (λ c. c.id == id) (close_as now outcome) d.bookings (λ c. refl)
              (λ c h. closed_not_pending now outcome c))
    ]

record_event-StayPut :
    (now : ℕ) (p : CreatePayload) (calendar : ℕ) (b : Booking) (d : Desk)
    (event : EventId × Option ℕ)
    → Returns (λ d'. StayPut d.bookings d'.bookings) (record_event now p calendar b d event)
unfolding record_event
record_event-StayPut now p calendar b d (event, none) =
    elim (Bool-cases (count_where (λ x. x.id == p.slot_id && is_booked x.status) d.slots == 0)) [
      | inl e ↦ rw (record_event, e) tt
      | inr e ↦ rw (record_event, e) (same-StayPut d.bookings)
    ]
record_event-StayPut now p calendar b d (event, some u) =
    elim (Bool-cases (count_where (λ x. x.id == p.slot_id && is_booked x.status) d.slots == 0)) [
      | inl e ↦ rw (record_event, e) tt
      | inr e ↦ rw (record_event, e) (same-StayPut d.bookings)
    ]

access-StayPut :
    (google : Google) (now host : ℕ) (d : Desk)
    → Returns (λ r. r.1.bookings ≡ d.bookings) (access google now host d)
unfolding access
access-StayPut google now host d =
    let r = get_google_access_token google (λ rows. rows) now host d.calendars in
    elim r.0 as (λ x. Returns (λ (v : ℕ × Desk). v.1.bookings ≡ d.bookings) (token_of d (x, r.1))) [
      | throws err ↦ tt
      | ok none ↦ tt
      | ok (some token) ↦ refl
    ]

create_event-StayPut :
    (google : Google) (now : ℕ) (p : CreatePayload) (calendar : ℕ) (b : Booking) (x : Slot)
    (d : Desk)
    → Returns (λ d'. StayPut d.bookings d'.bookings) (create_event google now p calendar b x d)
unfolding create_event
create_event-StayPut google now p calendar b x d =
    Returns->>= (λ r. r.1.bookings ≡ d.bookings) (λ d'. StayPut d.bookings d'.bookings)
      (access google now x.host d) _ (access-StayPut google now x.host d)
      (λ r h.
        Returns->>= (λ c. Unit {0}) (λ d'. StayPut d.bookings d'.bookings)
          (create_google_calendar_event google r.0 (request_of p calendar b x)) _
          (Returns-any (create_google_calendar_event google r.0 (request_of p calendar b x)))
          (λ event u.
            subst
              (λ xs.
                Returns (λ d'. StayPut xs d'.bookings) (record_event now p calendar b r.1 event))
              h (record_event-StayPut now p calendar b r.1 event)))

execute_create_job-StayPut :
    (google : Google) (now : ℕ) (p : CreatePayload) (d : Desk)
    → Returns (λ d'. StayPut d.bookings d'.bookings) (execute_create_job google now p d)
unfolding execute_create_job
execute_create_job-StayPut google now p d =
    elim (Option-cases (row (λ (b : Booking). b.id) p.booking_id d.bookings)) [
      | inl e ↦ rw (execute_create_job, e) (same-StayPut d.bookings)
      | inr (b, e) ↦ elim (Option-cases (slot_at b.slot_id d.slots)) [
        | inl f ↦ rw (execute_create_job, e, f) (same-StayPut d.bookings)
        | inr (x, f) ↦ elim (Bool-cases (is_current p b)) [
          | inr g ↦ rw (execute_create_job, e, f, g) (same-StayPut d.bookings)
          | inl g ↦ elim (Option-cases p.calendar_id) [
            | inl h ↦ rw (execute_create_job, e, f, g, h) (same-StayPut d.bookings)
            | inr (c, h) ↦
                rw (execute_create_job, e, f, g, h) (create_event-StayPut google now p c b x d)
          ]
        ]
      ]
    ]

execute_calendar_job-StayPut :
    (google : Google) (now : ℕ) (w : CalendarWork) (d : Desk)
    → Returns (λ d'. StayPut d.bookings d'.bookings) (execute_calendar_job google now w d)
unfolding execute_calendar_job execute_delete_job
execute_calendar_job-StayPut google now (creates p) d = execute_create_job-StayPut google now p d
execute_calendar_job-StayPut google now (deletes p) d =
    Returns->>= (λ r. r.1.bookings ≡ d.bookings) (λ d'. StayPut d.bookings d'.bookings)
      (access google now p.host d) _ (access-StayPut google now p.host d)
      (λ r h.
        Returns->>= (λ c. Unit {0}) (λ d'. StayPut d.bookings d'.bookings)
          (delete_google_calendar_event google r.0 p.calendar_id p.event_id) _
          (Returns-any (delete_google_calendar_event google r.0 p.calendar_id p.event_id))
          (λ gone u. subst (λ xs. StayPut d.bookings xs) (sym h) (same-StayPut d.bookings)))

concluded-StayPut :
    (google : Google) (now : ℕ) (job : CalendarJob) (d : Desk) (r : Result GoogleError Desk)
    → Returns (λ d'. StayPut d.bookings d'.bookings) r
    → StayPut d.bookings (concluded google now job d r).bookings
unfolding concluded
concluded-StayPut google now job d (ok d') h = h
concluded-StayPut google now job d (throws err) h = same-StayPut d.bookings

pub run_job-StayPut :
    (google : Google) (now : ℕ) (job : CalendarJob) (d : Desk)
    → StayPut d.bookings (run_job google now job d).bookings
unfolding run_job
run_job-StayPut google now job d =
    elim (Bool-cases (
      count_where (λ (j : CalendarJob). j.id == job.id && is_pending j.status) d.outbox.jobs
      == 0)) [
        | inl e ↦ rw (run_job, e) (same-StayPut d.bookings)
        | inr e ↦
            rw (run_job, e)
              (concluded-StayPut google now job _ _
                (execute_calendar_job-StayPut google now job.work _))
      ]
