-- ===== src/Consultation/Diagram/Synced.antt =====
-- The jobs of the calendar leave the state of every slot.
use spottex_test.Common.{
  ℕ, ◌≡◌, refl, sym, subst, ◌&&◌, some, none, ◌==◌, inl, inr, Bool-cases, Option-cases, ok, throws,
  count_where, row, Option, Result, Returns, Returns-any, Returns->>=,
}
use spottex_test.Consultation.Model.{EventId, Slot, Booking, Desk, is_booked}
use spottex_test.Consultation.Agrees.Base.{slot_at}
use spottex_test.Consultation.Calendar.Google.{Google}
use spottex_test.Consultation.Calendar.Worker.{run_job}
use spottex_test.Consultation.Calendar.Worker.{
  record_event, create_event, access, execute_create_job, execute_delete_job, execute_calendar_job,
  with_event, is_current, request_of, concluded, token_of, is_pending,
}
use spottex_test.Consultation.Calendar.Google.{
  GoogleError, get_google_access_token, create_google_calendar_event, delete_google_calendar_event,
}
use spottex_test.Consultation.Model.{CalendarJob, CalendarWork, creates, deletes, CreatePayload}
use spottex_test.Consultation.Diagram.Edges.{stays, Follows, update-Follows}

record_event-Follows :
    (now : ℕ) (p : CreatePayload) (calendar : ℕ) (b : Booking) (d : Desk)
    (event : EventId × Option ℕ)
    → Returns (λ d'. Follows d.slots d'.slots) (record_event now p calendar b d event)
unfolding record_event
record_event-Follows now p calendar b d (event, none) =
    elim (Bool-cases (count_where (λ x. x.id == p.slot_id && is_booked x.status) d.slots == 0)) [
      | inl e ↦ rw (record_event, e) tt
      | inr e ↦
          rw (record_event, e)
            (update-Follows (λ x. x.id == p.slot_id && is_booked x.status)
              (with_event calendar (event, none)) d.slots (λ x. refl) (λ x h. stays))
    ]
record_event-Follows now p calendar b d (event, some u) =
    elim (Bool-cases (count_where (λ x. x.id == p.slot_id && is_booked x.status) d.slots == 0)) [
      | inl e ↦ rw (record_event, e) tt
      | inr e ↦
          rw (record_event, e)
            (update-Follows (λ x. x.id == p.slot_id && is_booked x.status)
              (with_event calendar (event, some u)) d.slots (λ x. refl) (λ x h. stays))
    ]

access-Follows :
    (google : Google) (now host : ℕ) (d : Desk)
    → Returns (λ r. r.1.slots ≡ d.slots) (access google now host d)
unfolding access
access-Follows google now host d =
    let r = get_google_access_token google (λ rows. rows) now host d.calendars in
    elim r.0 as (λ x. Returns (λ (v : ℕ × Desk). v.1.slots ≡ d.slots) (token_of d (x, r.1))) [
      | throws err ↦ tt
      | ok none ↦ tt
      | ok (some token) ↦ refl
    ]

create_event-Follows :
    (google : Google) (now : ℕ) (p : CreatePayload) (calendar : ℕ) (b : Booking) (x : Slot)
    (d : Desk)
    → Returns (λ d'. Follows d.slots d'.slots) (create_event google now p calendar b x d)
unfolding create_event
create_event-Follows google now p calendar b x d =
    Returns->>= (λ r. r.1.slots ≡ d.slots) (λ d'. Follows d.slots d'.slots)
      (access google now x.host d) _ (access-Follows google now x.host d)
      (λ r h.
        Returns->>= (λ c. Unit {0}) (λ d'. Follows d.slots d'.slots)
          (create_google_calendar_event google r.0 (request_of p calendar b x)) _
          (Returns-any (create_google_calendar_event google r.0 (request_of p calendar b x)))
          (λ event u.
            subst
              (λ xs. Returns (λ d'. Follows xs d'.slots) (record_event now p calendar b r.1 event))
              h (record_event-Follows now p calendar b r.1 event)))

execute_create_job-Follows :
    (google : Google) (now : ℕ) (p : CreatePayload) (d : Desk)
    → Returns (λ d'. Follows d.slots d'.slots) (execute_create_job google now p d)
unfolding execute_create_job
execute_create_job-Follows google now p d =
    elim (Option-cases (row (λ (b : Booking). b.id) p.booking_id d.bookings)) [
      | inl e ↦ rw (execute_create_job, e) (λ i. stays)
      | inr (b, e) ↦ elim (Option-cases (slot_at b.slot_id d.slots)) [
        | inl f ↦ rw (execute_create_job, e, f) (λ i. stays)
        | inr (x, f) ↦ elim (Bool-cases (is_current p b)) [
          | inr g ↦ rw (execute_create_job, e, f, g) (λ i. stays)
          | inl g ↦ elim (Option-cases p.calendar_id) [
            | inl h ↦ rw (execute_create_job, e, f, g, h) (λ i. stays)
            | inr (c, h) ↦
                rw (execute_create_job, e, f, g, h) (create_event-Follows google now p c b x d)
          ]
        ]
      ]
    ]

execute_calendar_job-Follows :
    (google : Google) (now : ℕ) (w : CalendarWork) (d : Desk)
    → Returns (λ d'. Follows d.slots d'.slots) (execute_calendar_job google now w d)
unfolding execute_calendar_job execute_delete_job
execute_calendar_job-Follows google now (creates p) d = execute_create_job-Follows google now p d
execute_calendar_job-Follows google now (deletes p) d =
    Returns->>= (λ r. r.1.slots ≡ d.slots) (λ d'. Follows d.slots d'.slots)
      (access google now p.host d) _ (access-Follows google now p.host d)
      (λ r h.
        Returns->>= (λ c. Unit {0}) (λ d'. Follows d.slots d'.slots)
          (delete_google_calendar_event google r.0 p.calendar_id p.event_id) _
          (Returns-any (delete_google_calendar_event google r.0 p.calendar_id p.event_id))
          (λ gone u. subst (λ xs. Follows d.slots xs) (sym h) (λ i. stays)))

concluded-Follows :
    (google : Google) (now : ℕ) (job : CalendarJob) (d : Desk) (r : Result GoogleError Desk)
    → Returns (λ d'. Follows d.slots d'.slots) r
    → Follows d.slots (concluded google now job d r).slots
unfolding concluded
concluded-Follows google now job d (ok d') h = h
concluded-Follows google now job d (throws err) h = λ i. stays

pub run_job-Follows :
    (google : Google) (now : ℕ) (job : CalendarJob) (d : Desk)
    → Follows d.slots (run_job google now job d).slots
unfolding run_job
run_job-Follows google now job d =
    elim (Bool-cases (
      count_where (λ (j : CalendarJob). j.id == job.id && is_pending j.status) d.outbox.jobs
      == 0)) [
        | inl e ↦ rw (run_job, e) (λ i. stays)
        | inr e ↦
            rw (run_job, e)
              (concluded-Follows google now job _ _
                (execute_calendar_job-Follows google now job.work _))
      ]
