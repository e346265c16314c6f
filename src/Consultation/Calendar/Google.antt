-- ===== src/Consultation/Calendar/Google.antt =====
-- The calls of Google's services: src/lib/consultation/google-calendar.ts. Google itself is a
-- parameter that answers each request, or not at all (`none`: the fetch throws).
use spottex_test.Common.{
  ℕ, ◌+◌, ◌*◌, Bool, true, false, not, ◌&&◌, ◌||◌, Option, none, some, List, [], ◌∷◌, ◌++◌, ◌==◌,
  ltb, leb, find_first, update_where, count_where, or_else, Result, ok, throws, ◌>>=◌, or_throw,
  if◌then◌else◌,
}
use spottex_test.Consultation.Model.{EventId, Metadata, HostCalendar, event_id_eq}
use spottex_test.Consultation.Calendar.State.{calendar_of, is_calendar_disconnecting}

-- The answer of the token endpoint: a token and its lifetime in seconds, `invalid_grant`, or another
-- failure.
pub data Refreshed : Type 0 where
  refreshed : ℕ → ℕ → Refreshed
  invalid_grant refresh_failed : Refreshed

-- `{ start, end }` of a busy interval.
pub record Interval : Type 0 where
  pub start : ℕ
  pub finish : ℕ

-- What createGoogleCalendarEvent sends, with the private properties of the booking and its revision.
pub record EventRequest : Type 0 where
  pub calendar_id : ℕ
  pub event_id : EventId
  pub start_utc : ℕ
  pub end_utc : ℕ
  pub guest_email : ℕ
  pub auto_meet : Bool
  pub booking_id : ℕ
  pub revision : ℕ

-- What it reads of an event: `hangoutLink`, and the uri of the first video entry point.
pub record EventBody : Type 0 where
  pub id : Option EventId
  pub is_cancelled : Bool
  pub booking_id : Option ℕ
  pub revision : Option ℕ
  pub hangout_link : Option ℕ
  pub video_uri : Option ℕ

pub record EventReply : Type 0 where
  pub status : ℕ
  pub body : EventBody

pub record Google : Type 0 where
  pub refresh : ℕ → Refreshed
  pub events : ℕ → List ℕ → ℕ → ℕ → Option (List Interval)
  pub post_event : ℕ → EventRequest → Option EventReply
  pub read_event : ℕ → ℕ → EventId → Option EventReply
  pub delete_event : ℕ → ℕ → EventId → Option ℕ
  pub revoke : ℕ → Option ℕ

-- GoogleCalendarAuthError, or another error.
pub data GoogleError : Type 0 where
  auth_error google_failed : GoogleError

-- `response.ok`.
abbrev is_ok : ℕ → Bool
is_ok status = leb 200 status && ltb status 300

abbrev same_option : Option ℕ → Option ℕ → Bool
same_option none none = true
same_option (some a) (some b) = a == b
same_option _ _ = false

abbrev same_bool : Bool → Bool → Bool
same_bool true b = b
same_bool false b = not b

-- Equality of the stored metadata, `metadata: { equals: … }`.
unfoldable pub same_metadata : Metadata → Metadata → Bool
same_metadata m n =
    same_bool m.disconnecting n.disconnecting
    && same_option m.disconnecting_at n.disconnecting_at
    && same_option m.disconnect_operation_id n.disconnect_operation_id
    && same_option m.oauth_disconnect_epoch n.oauth_disconnect_epoch

-- The row that a refreshed token may be written to.
unfoldable pub unchanged_since : HostCalendar → HostCalendar → Bool
unfolding same_metadata
unchanged_since c r =
    r.host == c.host
    && same_option r.encrypted_refresh_token c.encrypted_refresh_token
    && same_metadata r.metadata c.metadata

abbrev pub fresh_token : ℕ → HostCalendar → Option ℕ
fresh_token now c = elim c.token_expires_at [
  | none ↦ none
  | some t ↦ if ltb (now + 60000) t then c.encrypted_access_token else none
]

abbrev pub with_token : ℕ → ℕ → ℕ → HostCalendar → HostCalendar
with_token now token seconds r = record r {
  encrypted_access_token = some token;
  token_expires_at = some (now + seconds * 1000);
}

-- The write after the refresh, conditional on the row being as it was read.
unfoldable pub persist_token :
    ℕ
    → HostCalendar
    → Refreshed
    → List HostCalendar
    → Result GoogleError (Option ℕ) × List HostCalendar
unfolding unchanged_since count_where update_where
persist_token now c invalid_grant cs = (throws auth_error, cs)
persist_token now c refresh_failed cs = (throws google_failed, cs)
persist_token now c (refreshed token seconds) cs =
    if count_where (unchanged_since c) cs == 0
    then (throws auth_error, cs)
    else (ok (some token), update_where (unchanged_since c) (with_token now token seconds) cs)

-- getGoogleAccessToken, and the rows that it leaves, also where it throws: `later` is what other
-- requests make of the rows while Google answers.
unfoldable pub get_google_access_token :
    Google
    → (List HostCalendar → List HostCalendar)
    → ℕ
    → ℕ
    → List HostCalendar
    → Result GoogleError (Option ℕ) × List HostCalendar
unfolding persist_token is_calendar_disconnecting find_first
get_google_access_token google later now host cs = elim (calendar_of host cs) [
  | none ↦ (ok none, cs)
  | some c ↦ elim c.encrypted_refresh_token [
    | none ↦ (ok none, cs)
    | some t ↦
        if is_calendar_disconnecting c.metadata
        then (throws auth_error, cs)
        else elim (fresh_token now c) [
          | some token ↦ (ok (some token), cs)
          | none ↦ persist_token now c (google.refresh t) (later cs)
        ]
  ]
]

unfoldable has_value : ℕ → List ℕ → Bool
has_value a [] = false
has_value a (x ∷ xs) = x == a || has_value a xs

-- `[...new Set(…)]`, where a value keeps its first place.
unfoldable dedupe : List ℕ → List ℕ → List ℕ
unfolding has_value
dedupe seen [] = []
dedupe seen (x ∷ xs) =
    let rest = dedupe (x ∷ seen) xs in
    let skipped = dedupe seen xs in if has_value x seen then skipped else x ∷ rest

abbrev targets : HostCalendar → List ℕ
unfolding dedupe
targets c = elim c.target_calendar_id [
  | none ↦ dedupe [] c.mask_calendar_ids
  | some t ↦ dedupe [] (c.mask_calendar_ids ++ t ∷ [])
]

abbrev intervals_with :
    Google → List ℕ → ℕ → ℕ → Result GoogleError (Option ℕ) → Result GoogleError (List Interval)
intervals_with google ids time_min time_max (throws err) = throws err
intervals_with google ids time_min time_max (ok none) = throws auth_error
intervals_with google ids time_min time_max (ok (some token)) =
    or_throw (google.events token ids time_min time_max) google_failed

abbrev list_busy :
    Google
    → List ℕ
    → ℕ
    → ℕ
    → ℕ
    → ℕ
    → List HostCalendar
    → Result GoogleError (List Interval) × List HostCalendar
unfolding get_google_access_token
list_busy google [] now host time_min time_max cs = (ok [], cs)
list_busy google (i ∷ ids) now host time_min time_max cs =
    let (token, rows) = get_google_access_token google (λ rows. rows) now host cs in
    (intervals_with google (i ∷ ids) time_min time_max token, rows)

-- listHostBusyIntervals; no other request writes meanwhile.
unfoldable list_host_busy_intervals :
    Google
    → ℕ
    → ℕ
    → ℕ
    → ℕ
    → List HostCalendar
    → Result GoogleError (List Interval) × List HostCalendar
unfolding get_google_access_token find_first dedupe
list_host_busy_intervals google now host time_min time_max cs = elim (calendar_of host cs) [
  | none ↦ (ok [], cs)
  | some c ↦ list_busy google (targets c) now host time_min time_max cs
]

-- Whether an interval meets `[start, finish)`.
unfoldable pub overlaps_any : ℕ → ℕ → List Interval → Bool
overlaps_any start finish [] = false
overlaps_any start finish (i ∷ is) =
    (ltb start i.finish && ltb i.start finish) || overlaps_any start finish is

-- hostCalendarHasConflict.
unfoldable pub host_calendar_has_conflict :
    Google → ℕ → ℕ → ℕ → ℕ → List HostCalendar → Result GoogleError Bool × List HostCalendar
unfolding list_host_busy_intervals overlaps_any
host_calendar_has_conflict google now host start finish cs =
    let (busy, rows) = list_host_busy_intervals google now host start finish cs in
    (busy >>= (λ is. ok (overlaps_any start finish is)), rows)

abbrev matches_identity : EventRequest → EventBody → Bool
matches_identity r b =
    same_option b.booking_id (some r.booking_id) && same_option b.revision (some r.revision)

-- The event that the answer stands for: on a conflict (409) the event that is there, if it is ours.
unfoldable event_of : Google → ℕ → EventRequest → EventReply → Result GoogleError EventBody
event_of google token r reply =
    if reply.status == 409
    then elim (google.read_event token r.calendar_id r.event_id) [
      | none ↦ throws google_failed
      | some e ↦
          if is_ok e.status && not e.body.is_cancelled && matches_identity r e.body
          then ok e.body
          else throws google_failed
    ]
    else if is_ok reply.status
    then ok reply.body
    else throws google_failed

abbrev has_event_id : EventId → Option EventId → Bool
has_event_id e none = false
has_event_id e (some f) = event_id_eq f e

-- createGoogleCalendarEvent: the id and the link of the event.
unfoldable pub create_google_calendar_event :
    Google → ℕ → EventRequest → Result GoogleError (EventId × Option ℕ)
unfolding event_of
create_google_calendar_event google token r =
    or_throw (google.post_event token r) google_failed >>= event_of google token r >>= (λ b.
      if has_event_id r.event_id b.id
      then ok (r.event_id, or_else b.hangout_link b.video_uri)
      else throws google_failed)

-- deleteGoogleCalendarEvent: an event that is gone (404, 410) counts as deleted.
unfoldable pub delete_google_calendar_event : Google → ℕ → ℕ → EventId → Result GoogleError Bool
delete_google_calendar_event google token calendar_id event_id =
    or_throw (google.delete_event token calendar_id event_id) google_failed
    >>= (λ s. if is_ok s || s == 404 || s == 410 then ok true else throws google_failed)

pub data Revocation : Type 0 where
  revoked already_revoked : Revocation

-- revokeGoogleCalendarGrant.
unfoldable pub revoke_google_calendar_grant : Google → ℕ → Result GoogleError Revocation
revoke_google_calendar_grant google token = or_throw (google.revoke token) google_failed >>= (λ s.
    if is_ok s then ok revoked else if s == 400 then ok already_revoked else throws google_failed)
