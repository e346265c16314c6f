-- ===== src/Consultation/Agrees/Synced.antt =====
-- The jobs of the calendar keep slots and bookings in agreement.
use spottex_test.Common.{
  ℕ, ◌≡◌, refl, Bool, ◌&&◌, some, none, ◌==◌, inl, inr, Bool-cases, Option-cases, ok, throws,
  update_where, count_where, row, arith, flag_same, Option, Result, Returns, Returns-any,
  Returns->>=,
}
use spottex_test.Consultation.Model.{EventId, Slot, Booking, Desk, is_booked}
use spottex_test.Consultation.Agrees.Base.{IsSound, Agrees-slots, held_slot, taken_slot, slot_at}
use spottex_test.Consultation.Calendar.Google.{Google}
use spottex_test.Consultation.Calendar.Worker.{run_job}
use spottex_test.Consultation.Calendar.Worker.{
  record_event, create_event, access, execute_create_job, execute_delete_job, execute_calendar_job,
  with_event, is_current, announce, request_of, concluded, token_of, is_pending,
}
use spottex_test.Consultation.Calendar.Google.{
  GoogleError, get_google_access_token, create_google_calendar_event, delete_google_calendar_event,
}
use spottex_test.Consultation.Model.{CalendarJob, CalendarWork, creates, deletes, CreatePayload}

-- The event of a slot leaves its status.
with_event-Agrees :
    (p : Slot → Bool) (calendar : ℕ) (event : EventId × Option ℕ) (d : Desk)
    → IsSound d
    → IsSound (record d { slots = update_where p (with_event calendar event) d.slots })
with_event-Agrees p calendar event d a =
    let same =
      λ (q : Slot → Bool) (kept : (x : Slot) → q (with_event calendar event x) ≡ q x) (i : ℕ).
        flag_same (λ (x : Slot). x.id) i p q (with_event calendar event) (λ x. refl) kept d.slots in
    Agrees-slots a p (with_event calendar event) (λ x. refl) (same held_slot (λ x. refl))
      (λ i. ground (arith, same taken_slot (λ x. refl) i))

announce-IsSound :
    (now : ℕ) (p : CreatePayload) (b : Booking) (url : Option ℕ) (d : Desk)
    → IsSound d
    → IsSound (announce now p b url d)
announce-IsSound now p b none d a = a
announce-IsSound now p b (some u) d a = a

record_event-IsSound :
    (now : ℕ) (p : CreatePayload) (calendar : ℕ) (b : Booking) (d : Desk)
    (event : EventId × Option ℕ)
    → IsSound d
    → Returns IsSound (record_event now p calendar b d event)
unfolding record_event
record_event-IsSound now p calendar b d (event, url) a =
    elim (Bool-cases (count_where (λ x. x.id == p.slot_id && is_booked x.status) d.slots == 0)) [
      | inl e ↦ rw (record_event, e) tt
      | inr e ↦
          rw (record_event, e)
            (announce-IsSound now p b url _ (
              with_event-Agrees (λ x. x.id == p.slot_id && is_booked x.status) calendar (event, url)
                d a))
    ]

access-IsSound :
    (google : Google) (now host : ℕ) (d : Desk)
    → IsSound d
    → Returns (λ r. IsSound r.1) (access google now host d)
unfolding access
access-IsSound google now host d a =
    let r = get_google_access_token google (λ rows. rows) now host d.calendars in
    elim r.0 as (λ x. Returns (λ (v : ℕ × Desk). IsSound v.1) (token_of d (x, r.1))) [
      | throws err ↦ tt
      | ok none ↦ tt
      | ok (some token) ↦ a
    ]

create_event-IsSound :
    (google : Google) (now : ℕ) (p : CreatePayload) (calendar : ℕ) (b : Booking) (x : Slot)
    (d : Desk)
    → IsSound d
    → Returns IsSound (create_event google now p calendar b x d)
unfolding create_event
create_event-IsSound google now p calendar b x d a =
    Returns->>= (λ r. IsSound r.1) IsSound (access google now x.host d) _
      (access-IsSound google now x.host d a)
      (λ r h.
        Returns->>= (λ c. Unit {0}) IsSound
          (create_google_calendar_event google r.0 (request_of p calendar b x)) _
          (Returns-any (create_google_calendar_event google r.0 (request_of p calendar b x)))
          (λ event u. record_event-IsSound now p calendar b r.1 event h))

execute_create_job-IsSound :
    (google : Google) (now : ℕ) (p : CreatePayload) (d : Desk)
    → IsSound d
    → Returns IsSound (execute_create_job google now p d)
unfolding execute_create_job
execute_create_job-IsSound google now p d a =
    elim (Option-cases (row (λ (b : Booking). b.id) p.booking_id d.bookings)) [
      | inl e ↦ rw (execute_create_job, e) a
      | inr (b, e) ↦ elim (Option-cases (slot_at b.slot_id d.slots)) [
        | inl f ↦ rw (execute_create_job, e, f) a
        | inr (x, f) ↦ elim (Bool-cases (is_current p b)) [
          | inr g ↦ rw (execute_create_job, e, f, g) a
          | inl g ↦ elim (Option-cases p.calendar_id) [
            | inl h ↦ rw (execute_create_job, e, f, g, h) a
            | inr (c, h) ↦
                rw (execute_create_job, e, f, g, h) (create_event-IsSound google now p c b x d a)
          ]
        ]
      ]
    ]

execute_calendar_job-IsSound :
    (google : Google) (now : ℕ) (w : CalendarWork) (d : Desk)
    → IsSound d
    → Returns IsSound (execute_calendar_job google now w d)
unfolding execute_calendar_job execute_delete_job
execute_calendar_job-IsSound google now (creates p) d a =
    execute_create_job-IsSound google now p d a
execute_calendar_job-IsSound google now (deletes p) d a =
    Returns->>= (λ r. IsSound r.1) IsSound (access google now p.host d) _
      (access-IsSound google now p.host d a)
      (λ r h.
        Returns->>= (λ c. Unit {0}) IsSound
          (delete_google_calendar_event google r.0 p.calendar_id p.event_id) _
          (Returns-any (delete_google_calendar_event google r.0 p.calendar_id p.event_id))
          (λ gone u. h))

concluded-IsSound :
    (google : Google) (now : ℕ) (job : CalendarJob) (d : Desk) (r : Result GoogleError Desk)
    → IsSound d
    → Returns IsSound r
    → IsSound (concluded google now job d r)
unfolding concluded
concluded-IsSound google now job d (ok d') a h = h
concluded-IsSound google now job d (throws err) a h = a

pub run_job-IsSound :
    (google : Google) (now : ℕ) (job : CalendarJob) (d : Desk)
    → IsSound d
    → IsSound (run_job google now job d)
unfolding run_job
run_job-IsSound google now job d a =
    elim (Bool-cases (
      count_where (λ (j : CalendarJob). j.id == job.id && is_pending j.status) d.outbox.jobs
      == 0)) [
        | inl e ↦ rw (run_job, e) a
        | inr e ↦
            rw (run_job, e)
              (concluded-IsSound google now job _ _ a
                (execute_calendar_job-IsSound google now job.work _ a))
      ]
