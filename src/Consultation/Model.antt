-- ===== src/Consultation/Model.antt =====
-- The rows of the `consultation` schema, and its jobs and mails in the `jobs` schema. Times are
-- milliseconds; e-mail addresses, calendar ids, links, token hashes and encrypted tokens are numbers,
-- compared only; names, phones, notes and texts are not modelled.
use spottex_test.Common.{ℕ, Bool, true, false, ◌&&◌, Option, none, List, ◌==◌}
use spottex_test.Jobs.Model.{JobStatus}

-- `ConsultationSlotStatus`.
pub data SlotStatus : Type 0 where
  open_slot held booked blocked canceled_slot : SlotStatus

-- `ConsultationBookingStatus`.
pub data BookingStatus : Type 0 where
  pending_booking confirmed canceled_booking expired_booking completed_booking no_show :
      BookingStatus

-- The id of an event: googleCalendarEventId of a booking and a revision, compared as the values it
-- is hashed from, or another text.
pub data EventId : Type 0 where
  derived : ℕ → ℕ → EventId
  given : ℕ → EventId

pub record Slot : Type 0 where
  pub id : ℕ
  pub host : ℕ
  pub start_utc : ℕ
  pub end_utc : ℕ
  pub status : SlotStatus
  pub hold_expires_at : Option ℕ
  pub google_calendar_id : Option ℕ
  pub google_event_id : Option EventId
  pub meet_url : Option ℕ

pub record Booking : Type 0 where
  pub id : ℕ
  pub slot_id : ℕ
  pub guest_email : ℕ
  pub status : BookingStatus
  pub verify_token_hash : ℕ
  pub manage_token_hash : ℕ
  pub manage_token_expires_at : ℕ
  pub email_verified_at : Option ℕ
  pub calendar_revision : ℕ
  pub consent_at : ℕ

-- The object that `ConsultationHostCalendar.metadata` holds, as calendarMetadata reads it.
pub record Metadata : Type 0 where
  pub disconnecting : Bool
  pub disconnecting_at : Option ℕ
  pub disconnect_operation_id : Option ℕ
  pub oauth_disconnect_epoch : Option ℕ

pub record HostCalendar : Type 0 where
  pub host : ℕ
  pub google_email : Option ℕ
  pub encrypted_access_token : Option ℕ
  pub encrypted_refresh_token : Option ℕ
  pub token_expires_at : Option ℕ
  pub mask_calendar_ids : List ℕ
  pub target_calendar_id : Option ℕ
  pub auto_meet : Bool
  pub metadata : Metadata

-- `idempotencyKey` of a calendar job; the digest of a deletion's target is compared as the target.
pub data CalendarKey : Type 0 where
  create_key : ℕ → ℕ → CalendarKey
  delete_key : ℕ → ℕ → ℕ → EventId → CalendarKey

-- `payload`, of version 2 for a creation and 1 for a deletion, with its target decrypted.
pub record CreatePayload : Type 0 where
  pub booking_id : ℕ
  pub slot_id : ℕ
  pub revision : ℕ
  pub calendar_id : Option ℕ
  pub auto_meet : Bool

pub record DeletePayload : Type 0 where
  pub booking_id : ℕ
  pub host : ℕ
  pub revision : ℕ
  pub calendar_id : ℕ
  pub event_id : EventId

-- The type of the job (CALENDAR_CREATE_JOB, CALENDAR_DELETE_JOB) with its payload.
pub data CalendarWork : Type 0 where
  creates : CreatePayload → CalendarWork
  deletes : DeletePayload → CalendarWork

-- `lastError`.
pub data SyncError : Type 0 where
  recovered_sync stopped_repeatedly unauthorized_sync sync_failed : SyncError

pub record CalendarJob : Type 0 where
  pub id : ℕ
  pub key : CalendarKey
  pub work : CalendarWork
  pub status : JobStatus
  pub run_at : ℕ
  pub attempts : ℕ
  pub locked_at : Option ℕ
  pub completed_at : Option ℕ
  pub last_error : Option SyncError

-- `idempotencyKey` of a mail: its booking, and the start of the slot or the revision.
pub data NoticeKey : Type 0 where
  verify_key : ℕ → NoticeKey
  confirmed_key host_notice_key reminder_key meet_ready_key : ℕ → ℕ → NoticeKey

pub record Notice : Type 0 where
  pub key : NoticeKey
  pub to_email : ℕ
  pub status : JobStatus
  pub send_at : ℕ

-- The calendar jobs and the mails.
pub record Outbox : Type 0 where
  pub jobs : List CalendarJob
  pub notices : List Notice
  pub next_job : ℕ

-- The users that can be hosts: their ids and addresses.
pub record Host : Type 0 where
  pub id : ℕ
  pub email : ℕ

pub record Desk : Type 0 where
  pub slots : List Slot
  pub bookings : List Booking
  pub calendars : List HostCalendar
  pub hosts : List Host
  pub outbox : Outbox
  pub next_slot : ℕ
  pub next_booking : ℕ

abbrev pub is_open_slot : SlotStatus → Bool
is_open_slot open_slot = true
is_open_slot _ = false

abbrev pub is_held : SlotStatus → Bool
is_held held = true
is_held _ = false

abbrev pub is_booked : SlotStatus → Bool
is_booked booked = true
is_booked _ = false

abbrev pub is_pending_booking : BookingStatus → Bool
is_pending_booking pending_booking = true
is_pending_booking _ = false

abbrev pub is_confirmed : BookingStatus → Bool
is_confirmed confirmed = true
is_confirmed _ = false

abbrev pub is_canceled_booking : BookingStatus → Bool
is_canceled_booking canceled_booking = true
is_canceled_booking _ = false

abbrev pub event_id_eq : EventId → EventId → Bool
event_id_eq (derived b r) (derived c s) = b == c && r == s
event_id_eq (given i) (given j) = i == j
event_id_eq _ _ = false

unfoldable pub calendar_key_eq : CalendarKey → CalendarKey → Bool
calendar_key_eq (create_key b r) (create_key c s) = b == c && r == s
calendar_key_eq (delete_key b r i e) (delete_key c s j f) =
    b == c && r == s && i == j && event_id_eq e f
calendar_key_eq _ _ = false

unfoldable pub notice_key_eq : NoticeKey → NoticeKey → Bool
notice_key_eq (verify_key b) (verify_key c) = b == c
notice_key_eq (confirmed_key b t) (confirmed_key c u) = b == c && t == u
notice_key_eq (host_notice_key b t) (host_notice_key c u) = b == c && t == u
notice_key_eq (reminder_key b t) (reminder_key c u) = b == c && t == u
notice_key_eq (meet_ready_key b r) (meet_ready_key c s) = b == c && r == s
notice_key_eq _ _ = false

abbrev pub has_notice_key : NoticeKey → Notice → Bool
has_notice_key k m = notice_key_eq m.key k

-- The metadata of a row that no disconnection has touched, `{}`.
abbrev pub no_metadata : Metadata
no_metadata = record {
  disconnecting = false;
  disconnecting_at = none;
  disconnect_operation_id = none;
  oauth_disconnect_epoch = none;
}
