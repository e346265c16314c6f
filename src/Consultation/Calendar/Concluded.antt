-- ===== src/Consultation/Calendar/Concluded.antt =====
-- Every turn of the worker of calendar jobs concludes its job: src/lib/consultation/calendar-sync.ts.
use spottex_test.Common.{ℕ, ◌≡◌, ◌&&◌, some, none, ◌==◌, ok, throws, row, arith, Option, Result}
use spottex_test.Consultation.Model.{Desk}
use spottex_test.Consultation.Calendar.Google.{Google}
use spottex_test.Consultation.Calendar.Worker.{is_pending}
use spottex_test.Consultation.Calendar.Google.{GoogleError}
use spottex_test.Consultation.Model.{CalendarJob}
use spottex_test.Common.{suc, ◌+◌, update_where, arith, ◌⊎◌, ◌<◌, ◌≤◌}
use spottex_test.Jobs.Model.{succeeded, pending, failed}
use spottex_test.Consultation.Calendar.Worker.{
  claim_calendar_job, calendar_retry_delay_ms, with_jobs, safe_job_error,
}

abbrev pub calendar_job_at : ℕ → Desk → Option CalendarJob
calendar_job_at i d = row (λ (j : CalendarJob). j.id) i d.outbox.jobs

-- The desk once the worker has claimed the job.
abbrev pub taken : ℕ → CalendarJob → Desk → Desk
taken now job d =
    with_jobs
      (update_where (λ (j : CalendarJob). j.id == job.id && is_pending j.status)
        (claim_calendar_job now) d.outbox.jobs)
      d

-- A job whose execution threw waits for the delay of its attempts, or has failed for good at the
-- sixteenth.
abbrev Postponed : ℕ → CalendarJob → CalendarJob → Type 0
Postponed now job j =
    ((suc job.attempts < 16)
      × (j.status ≡ pending)
      × (j.run_at ≡ now + calendar_retry_delay_ms (suc job.attempts)))
    ⊎ ((16 ≤ suc job.attempts) × (j.status ≡ failed) × (j.run_at ≡ job.run_at))

-- What becomes of the job by the execution's result.
abbrev pub Conclusion : ℕ → CalendarJob → Result GoogleError Desk → CalendarJob → Type 0
Conclusion now job (ok d) j =
    (j.status ≡ succeeded) × (j.completed_at ≡ some now) × (j.last_error ≡ none)
Conclusion now job (throws err) j = (j.last_error ≡ some (safe_job_error err)) × Postponed now job j

-- What is written beside the jobs: the execution's writes, or nothing if it threw.
abbrev pub Written : Desk → Result GoogleError Desk → Desk → Type 0
Written d (ok d') e =
    (e.slots ≡ d'.slots) × (e.calendars ≡ d'.calendars) × (e.outbox.notices ≡ d'.outbox.notices)
Written d (throws err) e =
    (e.slots ≡ d.slots) × (e.calendars ≡ d.calendars) × (e.outbox.notices ≡ d.outbox.notices)
