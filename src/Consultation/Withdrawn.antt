-- ===== src/Consultation/Withdrawn.antt =====
-- The event of a booking that is canceled: the deletion names what the creation was queued for.
use spottex_test.Common.{
  ℕ, suc, ◌≡◌, ◌⊎◌, refl, ◌∙◌, true, false, Option, none, some, List, [], ◌∷◌, ◌++◌, ok, find_first,
  arith, inl, inr, Bool-cases, Option-cases, count_where, ◌==◌, subst, ==_refl, Returns, Returns-ok,
  Returns->>=,
}
use spottex_test.Jobs.Model.{pending}
use spottex_test.Consultation.Model.{
  derived, Slot, Booking, CalendarKey, delete_key, create_key, CalendarWork, creates, deletes,
  CreatePayload, CalendarJob, Outbox, Desk, calendar_key_eq, is_confirmed, is_canceled_booking,
}
use spottex_test.Consultation.Calendar.Queue.{
  has_calendar_key, load_calendar_create_snapshot, resolve_calendar_delete_calendar_id,
  upsert_calendar_job, enqueue_calendar_delete,
}
use spottex_test.Consultation.Cancel.{
  old_event_id, old_calendar_id, release_booking, enqueue_old_delete, is_too_late, cancel_read,
  same_booking, booked_slot,
}

abbrev pub job_at : CalendarKey → Outbox → Option CalendarJob
job_at k o = find_first (has_calendar_key k) o.jobs

-- The job that created the event of the booking's revision.
pub record IsCreatedBy (b : Booking) (calendar : ℕ) (o : Outbox) : Type 0 where
  pub job : CalendarJob
  pub payload : CreatePayload
  pub queued : job_at (create_key b.id b.calendar_revision) o ≡ some job
  pub work : job.work ≡ creates payload
  pub booking : payload.booking_id ≡ b.id
  pub revision : payload.revision ≡ b.calendar_revision
  pub target : payload.calendar_id ≡ some calendar

-- Whether the job has run: the slot has nothing of the event yet, or the event and its calendar.
abbrev SyncedOrNot : Booking → ℕ → Slot → Type 0
SyncedOrNot b calendar x =
    ((x.google_calendar_id ≡ none) × (x.google_event_id ≡ none))
    ⊎ ((x.google_calendar_id ≡ some calendar)
        × (x.google_event_id ≡ some (derived b.id b.calendar_revision)))

old_event_is :
    (b : Booking) (calendar r : ℕ) (x : Slot)
    → b.calendar_revision ≡ suc r
    → SyncedOrNot b calendar x
    → old_event_id b x ≡ some (derived b.id b.calendar_revision)
unfolding old_event_id
old_event_is b calendar r x rev (inl (c, e)) = ground arith
old_event_is b calendar r x rev (inr (c, e)) = rw e refl

snapshot_is :
    (b : Booking) (calendar r : ℕ) (d : Desk)
    → b.calendar_revision ≡ suc r
    → (by : IsCreatedBy b calendar d.outbox)
    → load_calendar_create_snapshot b.id (suc r) d.outbox ≡ ok (some by.payload)
unfolding load_calendar_create_snapshot
snapshot_is b calendar r d rev by =
    let queued = rw rev at by.queued in
    let revision = by.revision ∙ rev in
    rw
      (
        load_calendar_create_snapshot,
        queued,
        by.work,
        by.booking,
        revision,
        ==_refl b.id,
        ==_refl (suc r),
      )
      refl

old_calendar_is :
    (b : Booking) (calendar r : ℕ) (x : Slot) (d : Desk)
    → b.calendar_revision ≡ suc r
    → SyncedOrNot b calendar x
    → IsCreatedBy b calendar d.outbox
    → old_calendar_id b x d ≡ ok (some calendar)
unfolding old_calendar_id resolve_calendar_delete_calendar_id load_calendar_create_snapshot
old_calendar_is b calendar r x d rev (inl (c, e)) by =
    rw (c, rev, snapshot_is b calendar r d rev by, by.target) refl
old_calendar_is b calendar r x d rev (inr (c, e)) by = rw c refl

key_refl :
    (b r c : ℕ)
    → calendar_key_eq (delete_key b r c (derived b r)) (delete_key b r c (derived b r)) ≡ true
unfolding calendar_key_eq
key_refl b r c = rw (==_refl b, ==_refl r, ==_refl c) refl

found_last :
    (k : CalendarKey) (js : List CalendarJob) (j : CalendarJob)
    → find_first (has_calendar_key k) js ≡ none
    → has_calendar_key k j ≡ true
    → find_first (has_calendar_key k) (js ++ j ∷ []) ≡ some j
unfolding find_first
found_last k [] j fresh h = rw h refl
found_last k (x ∷ xs) j fresh h = ground (arith, found_last k xs j)

-- The job of a key in the outbox `o'`: the one that was there, or one that does the work now.
abbrev pub QueuedWork : ℕ → CalendarKey → CalendarWork → Outbox → Outbox → Type 0
QueuedWork now key work o o' =
    (j : CalendarJob) × (job_at key o' ≡ some j)
    × ((job_at key o ≡ some j) ⊎ ((j.work ≡ work) × (j.status ≡ pending) × (j.run_at ≡ now)))

-- The work that deletes the event of the booking's revision.
abbrev pub deletion : Booking → Slot → ℕ → CalendarWork
deletion b x calendar = deletes (record {
  booking_id = b.id;
  host = x.host;
  revision = b.calendar_revision;
  calendar_id = calendar;
  event_id = derived b.id b.calendar_revision;
})

fresh_job : ℕ → CalendarKey → CalendarWork → Outbox → CalendarJob
fresh_job now key work o = record {
  id = o.next_job;
  key = key;
  work = work;
  status = pending;
  run_at = now;
  attempts = 0;
  locked_at = none;
  completed_at = none;
  last_error = none;
}

upsert-job_at :
    (now b r c : ℕ) (work : CalendarWork) (o : Outbox)
    → QueuedWork now
        (delete_key b r c (derived b r))
        work
        o
        (upsert_calendar_job now (delete_key b r c (derived b r)) work o).1
unfolding upsert_calendar_job fresh_job
upsert-job_at now b r c work o =
    let key = delete_key b r c (derived b r) in
    elim (Option-cases (job_at key o)) [
      | inr (j, e) ↦ (j, rw (upsert_calendar_job, e) e, inl e)
      | inl e ↦ (
        fresh_job now key work o,
        rw (upsert_calendar_job, e)
            (found_last key o.jobs (fresh_job now key work o) e (key_refl b r c)),
        inr (refl, refl, refl),
      )
    ]

release_booking-outbox :
    (now : ℕ) (b : Booking) (d : Desk)
    → Returns (λ d₁. d₁.outbox ≡ d.outbox) (release_booking now b d)
unfolding release_booking
release_booking-outbox now b d = elim (Bool-cases (count_where (same_booking b) d.bookings == 0)) [
  | inl e ↦ rw (release_booking, e) tt
  | inr e ↦ elim (Bool-cases (count_where (booked_slot b.slot_id) d.slots == 0)) [
    | inl f ↦ rw (release_booking, e, f) tt
    | inr f ↦ rw (release_booking, e, f) refl
  ]
]

not_canceled : (b : Booking) → is_confirmed b.status ≡ true → is_canceled_booking b.status ≡ false
not_canceled b h = ground arith

-- A confirmed booking that is canceled leaves a job in the queue under the key of the deletion of the
-- event which the job of its revision creates, in the calendar that job was queued for; unless a job of
-- that key was there before, it is pending at once and its work is to delete exactly that event: whether that job has run
-- or not, and whatever calendar the host has chosen since.
pub cancel_read-deletes :
    (now calendar r : ℕ) (b : Booking) (x : Slot) (d d' : Desk) (ids : List ℕ)
    → is_confirmed b.status ≡ true
    → b.calendar_revision ≡ suc r
    → SyncedOrNot b calendar x
    → IsCreatedBy b calendar d.outbox
    → cancel_read now b x d ≡ ok (ids, d')
    → QueuedWork now
        (delete_key b.id b.calendar_revision calendar (derived b.id b.calendar_revision))
        (deletion b x calendar)
        d.outbox
        d'.outbox
unfolding cancel_read enqueue_old_delete enqueue_calendar_delete
cancel_read-deletes now calendar r b x d d' ids confirmed rev synced by h =
    let key = delete_key b.id b.calendar_revision calendar (derived b.id b.calendar_revision) in
    let leaves =
      λ (v : List ℕ × Desk). QueuedWork now key (deletion b x calendar) d.outbox v.1.outbox in
    Returns-ok leaves (cancel_read now b x d) (ids, d') h
      (elim (Bool-cases (is_too_late now b x)) [
        | inl e ↦ rw (cancel_read, not_canceled b confirmed, e) tt
        | inr e ↦
            rw
              (
                cancel_read,
                not_canceled b confirmed,
                e,
                old_calendar_is b calendar r x d rev synced by,
                old_event_is b calendar r x rev synced,
              )
              (Returns->>= (λ d₁. d₁.outbox ≡ d.outbox) leaves (release_booking now b d) _
                (release_booking-outbox now b d)
                (λ d₁ same.
                  subst
                    (λ o.
                      QueuedWork now key (deletion b x calendar) o
                        (upsert_calendar_job now key (deletion b x calendar) d₁.outbox).1)
                    same
                    (upsert-job_at now b.id b.calendar_revision calendar (deletion b x calendar)
                      d₁.outbox)))
      ])
