-- ===== src/Consultation/Calendar/Worker.antt =====
-- The worker of the calendar jobs: processConsultationCalendarJobs of
-- src/lib/consultation/calendar-sync.ts. A job that throws is rolled back and retried later.
use spottex_test.Common.{
  ℕ, suc, ◌+◌, ◌-◌, ◌*◌, ◌^◌, min, max, Bool, true, false, not, ◌&&◌, Option, none, some, List, [],
  ◌∷◌, ◌==◌, ltb, leb, row, find_first, find_many, update_where, count_where, take, sort_by, Result,
  ok, throws, ◌>>=◌, if◌then◌else◌,
}
use spottex_test.Jobs.Model.{JobStatus, pending, running, succeeded, failed}
use spottex_test.Consultation.Model.{
  HostCalendar, Slot, Booking, CreatePayload, DeletePayload, CalendarWork, creates, deletes,
  SyncError, recovered_sync, stopped_repeatedly, unauthorized_sync, sync_failed, CalendarJob, Desk,
  EventId, derived, is_confirmed, is_booked,
}
use spottex_test.Consultation.Mails.{queue_consultation_meet_ready}
use spottex_test.Consultation.Calendar.Google.{
  Google, GoogleError, auth_error, google_failed, EventRequest, get_google_access_token,
  create_google_calendar_event, delete_google_calendar_event,
}

-- retryDelayMs: half a minute, doubled at each attempt, up to six hours.
unfoldable pub calendar_retry_delay_ms : ℕ → ℕ
calendar_retry_delay_ms attempt = min 21600000 (30000 * 2 ^ (attempt - 1))

abbrev pub max_attempts : ℕ
max_attempts = 16

abbrev pub stale_lock_ms : ℕ
stale_lock_ms = 600000

-- The error that a job without a token throws; the rows are those after the token was read, and an error
-- rolls them back with the job's transaction.
abbrev pub token_of :
    Desk → Result GoogleError (Option ℕ) × List HostCalendar → Result GoogleError (ℕ × Desk)
token_of d (throws err, cs) = throws err
token_of d (ok none, cs) = throws auth_error
token_of d (ok (some token), cs) = ok (token, record d { calendars = cs })

-- The token of the host, in the job's transaction.
unfoldable pub access : Google → ℕ → ℕ → Desk → Result GoogleError (ℕ × Desk)
unfolding get_google_access_token
access google now host d =
    token_of d (get_google_access_token google (λ rows. rows) now host d.calendars)

-- Whether the booking is still the one that the job was queued for.
abbrev pub is_current : CreatePayload → Booking → Bool
is_current p b =
    is_confirmed b.status && b.slot_id == p.slot_id && b.calendar_revision == p.revision

abbrev pub request_of : CreatePayload → ℕ → Booking → Slot → EventRequest
request_of p calendar b x = record {
  calendar_id = calendar;
  event_id = derived b.id p.revision;
  start_utc = x.start_utc;
  end_utc = x.end_utc;
  guest_email = b.guest_email;
  auto_meet = p.auto_meet;
  booking_id = b.id;
  revision = p.revision;
}

abbrev pub announce : ℕ → CreatePayload → Booking → Option ℕ → Desk → Desk
announce now p b none d = d
announce now p b (some url) d = record d {
  outbox = record d.outbox {
    notices = queue_consultation_meet_ready now b.id p.revision b.guest_email d.outbox.notices;
  };
}

abbrev pub with_event : ℕ → EventId × Option ℕ → Slot → Slot
with_event calendar (event, url) x = record x {
  google_calendar_id = some calendar;
  google_event_id = some event;
  meet_url = url;
}

-- The write of the event to its slot, which must still be booked.
unfoldable pub record_event :
    ℕ → CreatePayload → ℕ → Booking → Desk → EventId × Option ℕ → Result GoogleError Desk
unfolding count_where update_where queue_consultation_meet_ready
record_event now p calendar b d (event, url) =
    if count_where (λ x. x.id == p.slot_id && is_booked x.status) d.slots == 0
    then throws google_failed
    else ok (
        announce now p b url (record d {
          slots =
              update_where (λ x. x.id == p.slot_id && is_booked x.status)
                (with_event calendar (event, url)) d.slots;
        }))

unfoldable pub create_event :
    Google → ℕ → CreatePayload → ℕ → Booking → Slot → Desk → Result GoogleError Desk
unfolding access create_google_calendar_event record_event
create_event google now p calendar b x d = access google now x.host d >>= (λ r.
    let (token, d₁) = r in
    create_google_calendar_event google token (request_of p calendar b x)
    >>= record_event now p calendar b d₁)

-- executeCreateJob.
unfoldable pub execute_create_job : Google → ℕ → CreatePayload → Desk → Result GoogleError Desk
unfolding create_event find_first
execute_create_job google now p d = elim (row (λ b. b.id) p.booking_id d.bookings) [
  | none ↦ ok d
  | some b ↦ elim (row (λ x. x.id) b.slot_id d.slots) [
    | none ↦ ok d
    | some x ↦ if not (is_current p b) then ok d else elim p.calendar_id [
      | none ↦ ok d
      | some calendar ↦ create_event google now p calendar b x d
    ]
  ]
]

-- executeDeleteJob.
unfoldable pub execute_delete_job : Google → ℕ → DeletePayload → Desk → Result GoogleError Desk
unfolding access delete_google_calendar_event
execute_delete_job google now p d = access google now p.host d >>= (λ r.
    let (token, d₁) = r in
    delete_google_calendar_event google token p.calendar_id p.event_id >>= (λ gone. ok d₁))

-- executeCalendarJob.
unfoldable pub execute_calendar_job : Google → ℕ → CalendarWork → Desk → Result GoogleError Desk
unfolding execute_create_job execute_delete_job
execute_calendar_job google now (creates p) d = execute_create_job google now p d
execute_calendar_job google now (deletes p) d = execute_delete_job google now p d

abbrev pub is_pending : JobStatus → Bool
is_pending pending = true
is_pending _ = false

abbrev pub is_running : JobStatus → Bool
is_running running = true
is_running _ = false

abbrev pub with_jobs : List CalendarJob → Desk → Desk
with_jobs js d = record d { outbox = record d.outbox { jobs = js } }

abbrev has_stale_lock : ℕ → CalendarJob → Bool
has_stale_lock now j =
    is_running j.status && elim j.locked_at [ none ↦ false | some t ↦ ltb (t + stale_lock_ms) now ]

abbrev recoverable : ℕ → CalendarJob → Bool
recoverable now j = has_stale_lock now j && ltb j.attempts max_attempts

abbrev exhausted : ℕ → CalendarJob → Bool
exhausted now j = has_stale_lock now j && leb max_attempts j.attempts

-- The two updates that recover the jobs of a worker that stopped.
unfoldable recover_stale_jobs : ℕ → List CalendarJob → List CalendarJob
unfolding update_where
recover_stale_jobs now js =
    update_where (exhausted now)
      (λ j. record j { status = failed; locked_at = none; last_error = some stopped_repeatedly })
      (update_where (recoverable now)
        (λ j. record j {
          status = pending;
          run_at = now;
          locked_at = none;
          last_error = some recovered_sync;
        })
        js)

abbrev pub claim_calendar_job : ℕ → CalendarJob → CalendarJob
claim_calendar_job now j = record j {
  status = running;
  locked_at = some now;
  attempts = suc j.attempts;
}

abbrev pub complete_job : ℕ → CalendarJob → CalendarJob
complete_job now j = record j {
  status = succeeded;
  locked_at = none;
  completed_at = some now;
  last_error = none;
}

-- safeJobError.
abbrev pub safe_job_error : GoogleError → SyncError
safe_job_error auth_error = unauthorized_sync
safe_job_error google_failed = sync_failed

-- The row of a job whose execution threw, at the given attempt.
unfoldable pub after_failure : ℕ → CalendarJob → GoogleError → CalendarJob → CalendarJob
unfolding calendar_retry_delay_ms
after_failure now job err j = record j {
  status = if leb max_attempts (suc job.attempts) then failed else pending;
  run_at =
      if leb max_attempts (suc job.attempts)
      then job.run_at
      else now + calendar_retry_delay_ms (suc job.attempts);
  locked_at = none;
  last_error = some (safe_job_error err);
}

unfoldable pub concluded : Google → ℕ → CalendarJob → Desk → Result GoogleError Desk → Desk
unfolding update_where after_failure
concluded google now job d (ok d') =
    with_jobs
      (update_where (λ j. j.id == job.id && is_running j.status) (complete_job now) d'.outbox.jobs)
      d'
concluded google now job d (throws err) =
    with_jobs
      (update_where (λ j. j.id == job.id && is_running j.status) (after_failure now job err)
        d.outbox.jobs)
      d

-- One turn of the loop: a job that another worker has claimed is skipped.
unfoldable pub run_job : Google → ℕ → CalendarJob → Desk → Desk
unfolding execute_calendar_job count_where update_where concluded
run_job google now job d =
    let mine = λ (j : CalendarJob). j.id == job.id && is_pending j.status in
    let d₁ = with_jobs (update_where mine (claim_calendar_job now) d.outbox.jobs) d in
    if count_where mine d.outbox.jobs == 0
    then d
    else concluded google now job d₁ (execute_calendar_job google now job.work d₁)

unfoldable run_jobs : Google → ℕ → List CalendarJob → Desk → Desk
unfolding run_job
run_jobs google now [] d = d
run_jobs google now (j ∷ js) d = run_jobs google now js (run_job google now j d)

unfoldable contains_id : ℕ → List ℕ → Bool
contains_id i [] = false
contains_id i (x ∷ xs) = if x == i then true else contains_id i xs

-- `options.jobIds`, where they are given.
abbrev chosen : Option (List ℕ) → CalendarJob → Bool
unfolding contains_id
chosen none j = true
chosen (some ids) j = contains_id j.id ids

-- `Math.min(Math.max(options.limit || 20, 1), 100)`.
abbrev limit_of : Option ℕ → ℕ
limit_of none = 20
limit_of (some n) = if n == 0 then 20 else min (max n 1) 100

-- The jobs that are due, in the order of their times.
unfoldable due_jobs : Option ℕ → Option (List ℕ) → ℕ → List CalendarJob → List CalendarJob
unfolding find_many sort_by contains_id
due_jobs limit ids now js = take (limit_of limit) (
    sort_by (λ j. j.run_at)
      (find_many (λ j. is_pending j.status && leb j.run_at now && chosen ids j) js))

-- processConsultationCalendarJobs; its report is not modelled.
unfoldable pub process_consultation_calendar_jobs :
    Google → Option ℕ → Option (List ℕ) → ℕ → Desk → Desk
unfolding recover_stale_jobs due_jobs run_jobs
process_consultation_calendar_jobs google limit ids now d =
    let d₁ = with_jobs (recover_stale_jobs now d.outbox.jobs) d in
    run_jobs google now (due_jobs limit ids now d₁.outbox.jobs) d₁
