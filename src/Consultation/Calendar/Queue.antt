-- ===== src/Consultation/Calendar/Queue.antt =====
-- The queue of calendar jobs: src/lib/consultation/calendar-sync.ts.
use spottex_test.Common.{
  ℕ, Bool, ◌&&◌, Option, none, some, [], ◌∷◌, ◌++◌, ◌==◌, find_first, Result, ok, throws, suc,
  if◌then◌else◌,
}
use spottex_test.Jobs.Model.{pending}
use spottex_test.Consultation.Model.{
  CalendarKey, create_key, delete_key, CreatePayload, DeletePayload, CalendarWork, creates, deletes,
  CalendarJob, Outbox, calendar_key_eq,
}

abbrev pub has_calendar_key : CalendarKey → CalendarJob → Bool
has_calendar_key k j = calendar_key_eq j.key k

pub data QueueError : Type 0 where
  identity_conflict : QueueError

abbrev snapshot_of : ℕ → ℕ → CalendarWork → Result QueueError (Option CreatePayload)
snapshot_of booking_id revision (deletes p) = throws identity_conflict
snapshot_of booking_id revision (creates p) =
    if p.booking_id == booking_id && p.revision == revision
    then ok (some p)
    else throws identity_conflict

-- loadCalendarCreateSnapshot.
unfoldable pub load_calendar_create_snapshot :
    ℕ → ℕ → Outbox → Result QueueError (Option CreatePayload)
unfolding find_first calendar_key_eq
load_calendar_create_snapshot booking_id Prim.Native.Nat.zero o = ok none
load_calendar_create_snapshot booking_id (suc r) o =
    elim (find_first (has_calendar_key (create_key booking_id (suc r))) o.jobs) [
      | none ↦ ok none
      | some j ↦ snapshot_of booking_id (suc r) j.work
    ]

abbrev resolved : Option ℕ → Result QueueError (Option CreatePayload) → Result QueueError (Option ℕ)
resolved current (throws err) = throws err
resolved current (ok none) = ok current
resolved current (ok (some p)) = ok p.calendar_id

-- resolveCalendarDeleteCalendarId.
unfoldable pub resolve_calendar_delete_calendar_id :
    ℕ → ℕ → Option ℕ → Option ℕ → Outbox → Result QueueError (Option ℕ)
unfolding load_calendar_create_snapshot
resolve_calendar_delete_calendar_id booking_id revision (some slot_calendar) current o =
    ok (some slot_calendar)
resolve_calendar_delete_calendar_id booking_id revision none current o =
    resolved current (load_calendar_create_snapshot booking_id revision o)

-- `upsert({ where: key, update: {}, create })`: the id of the job, and the outbox.
unfoldable pub upsert_calendar_job : ℕ → CalendarKey → CalendarWork → Outbox → ℕ × Outbox
unfolding find_first calendar_key_eq
upsert_calendar_job now key work o = elim (find_first (has_calendar_key key) o.jobs) [
  | some j ↦ (j.id, o)
  | none ↦ (
    o.next_job,
    record o {
      jobs =
          o.jobs
          ++ record {
            id = o.next_job;
            key = key;
            work = work;
            status = pending;
            run_at = now;
            attempts = 0;
            locked_at = none;
            completed_at = none;
            last_error = none;
          }
            ∷ [];
      next_job = suc o.next_job;
    },
  )
]

-- enqueueCalendarCreate.
unfoldable pub enqueue_calendar_create : ℕ → CreatePayload → Outbox → ℕ × Outbox
unfolding upsert_calendar_job
enqueue_calendar_create now p =
    upsert_calendar_job now (create_key p.booking_id p.revision) (creates p)

-- enqueueCalendarDelete.
unfoldable pub enqueue_calendar_delete : ℕ → DeletePayload → Outbox → ℕ × Outbox
unfolding upsert_calendar_job
enqueue_calendar_delete now p =
    upsert_calendar_job now (delete_key p.booking_id p.revision p.calendar_id p.event_id)
      (deletes p)
