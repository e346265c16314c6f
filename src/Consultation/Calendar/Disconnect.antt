-- ===== src/Consultation/Calendar/Disconnect.antt =====
-- The disconnection of a host's calendar: src/app/api/admin/google-calendar/disconnect/route.ts.
use spottex_test.Common.{
  ℕ, Bool, true, false, ◌&&◌, ◌||◌, Option, none, some, List, ◌==◌, ltb, find_first, count_where,
  is_some, or_else, ok, throws, if◌then◌else◌,
}
use spottex_test.Jobs.Model.{JobStatus, pending, running, failed}
use spottex_test.Consultation.Model.{
  Slot, Booking, HostCalendar, CalendarWork, creates, deletes, CalendarJob, Desk, is_held,
  is_booked, is_pending_booking, is_confirmed,
}
use spottex_test.Consultation.Calendar.State.{
  Finalized, retry, already_done, done, calendar_of, stage_disconnect, release_disconnect_stage,
  finalize_disconnect,
}
use spottex_test.Consultation.Calendar.Google.{Google, revoke_google_calendar_grant}

abbrev some_booking : (Booking → Bool) → ℕ → List Booking → Bool
unfolding count_where
some_booking p slot_id bs = ltb 0 (count_where (λ b. b.slot_id == slot_id && p b) bs)

-- A future slot of the host that the calendar is still needed for.
abbrev is_active : ℕ → ℕ → List Booking → Slot → Bool
unfolding count_where
is_active now host bs x =
    x.host == host
    && ltb now x.start_utc
    && ((is_booked x.status
          && (is_some x.google_event_id || some_booking (λ b. is_confirmed b.status) x.id bs))
        || (is_held x.status && some_booking (λ b. is_pending_booking b.status) x.id bs))

abbrev is_unfinished : JobStatus → Bool
is_unfinished pending = true
is_unfinished running = true
is_unfinished failed = true
is_unfinished _ = false

abbrev deletes_for : ℕ → CalendarWork → Bool
deletes_for host (creates p) = false
deletes_for host (deletes p) = p.host == host

abbrev pending_delete : ℕ → CalendarJob → Bool
pending_delete host j = is_unfinished j.status && deletes_for host j.work

pub data DisconnectAnswer : Type 0 where
  dependencies : ℕ → ℕ → DisconnectAnswer
  revocation_failed retry_required disconnected : DisconnectAnswer

abbrev grant_token : Option HostCalendar → Option ℕ
grant_token none = none
grant_token (some c) = or_else c.encrypted_refresh_token c.encrypted_access_token

-- What the first transaction returns.
pub data Staged : Type 0 where
  blocked_by : ℕ → ℕ → Staged
  staged : ℕ → Option ℕ → Staged

-- The first transaction: `operation_id` is the new random id.
unfoldable pub stage : ℕ → ℕ → ℕ → Desk → Staged × Desk
unfolding count_where stage_disconnect find_first
stage now operation_id host d =
    let active = count_where (is_active now host d.bookings) d.slots in
    let deleting = count_where (pending_delete host) d.outbox.jobs in
    let (s, cs) = stage_disconnect now operation_id host d.calendars in
    if active == 0 && deleting == 0
    then (
      staged s.operation_id (grant_token (calendar_of host d.calendars)),
      record d { calendars = cs },
    )
    else (blocked_by active deleting, d)

abbrev finalized_answer : Finalized → DisconnectAnswer
finalized_answer retry = retry_required
finalized_answer already_done = disconnected
finalized_answer done = disconnected

-- Whether the provider's grant is gone, or there was none.
unfoldable revokes_grant : Google → Option ℕ → Bool
unfolding revoke_google_calendar_grant
revokes_grant google none = true
revokes_grant google (some token) = elim (revoke_google_calendar_grant google token) [
  | throws err ↦ false
  | ok r ↦ true
]

-- What follows the answer of the provider.
unfoldable conclude_disconnect : ℕ → ℕ → Bool → Desk → DisconnectAnswer × Desk
unfolding release_disconnect_stage finalize_disconnect
conclude_disconnect host operation_id false d = (
  revocation_failed,
  record d { calendars = release_disconnect_stage host operation_id d.calendars },
)
conclude_disconnect host operation_id true d =
    let (r, cs) = finalize_disconnect host operation_id d.calendars in
    (finalized_answer r, record d { calendars = cs })

-- POST: `later` is what other requests make of the rows while the provider answers.
unfoldable pub disconnect : Google → (Desk → Desk) → ℕ → ℕ → ℕ → Desk → DisconnectAnswer × Desk
unfolding stage revokes_grant conclude_disconnect
disconnect google later now operation_id host d =
    let (s, d₁) = stage now operation_id host d in
    elim s [
      | blocked_by active deleting ↦ (dependencies active deleting, d₁)
      | staged id token ↦ conclude_disconnect host id (revokes_grant google token) (later d₁)
    ]
