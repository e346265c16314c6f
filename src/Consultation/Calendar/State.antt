-- ===== src/Consultation/Calendar/State.antt =====
-- The state of a host's connection to Google: src/lib/consultation/calendar-state.ts, and the
-- transactions of src/app/api/admin/google-calendar (disconnect and callback) that write it.
use spottex_test.Common.{
  ℕ, suc, Bool, true, false, not, ◌&&◌, Option, none, some, List, [], ◌∷◌, ◌++◌, ◌==◌, ◌*◌, ◌+◌,
  row, find_first, update_where, has_number, is_some, or_default, or_else, if◌then◌else◌,
}
use spottex_test.Consultation.Model.{Metadata, HostCalendar, no_metadata}

-- isCalendarDisconnecting of a row's metadata; a missing row has none.
abbrev pub metadata_of : Option HostCalendar → Metadata
metadata_of none = no_metadata
metadata_of (some c) = c.metadata

unfoldable pub is_calendar_disconnecting : Metadata → Bool
is_calendar_disconnecting m = m.disconnecting

-- calendarDisconnectEpoch.
unfoldable pub calendar_disconnect_epoch : Metadata → ℕ
calendar_disconnect_epoch m = or_default m.oauth_disconnect_epoch 0

-- isCurrentCalendarOAuthState.
unfoldable pub is_current_calendar_oauth_state : Metadata → ℕ → Bool
unfolding is_calendar_disconnecting calendar_disconnect_epoch
is_current_calendar_oauth_state m epoch =
    not (is_calendar_disconnecting m) && calendar_disconnect_epoch m == epoch

-- stableCalendarMetadata.
unfoldable pub stable_calendar_metadata : Metadata → Metadata
stable_calendar_metadata m = record m {
  disconnecting = false;
  disconnecting_at = none;
  disconnect_operation_id = none;
}

-- isCalendarDisconnectOperation.
unfoldable pub is_calendar_disconnect_operation : Metadata → ℕ → Bool
is_calendar_disconnect_operation m operation_id =
    m.disconnecting && has_number m.disconnect_operation_id operation_id

-- `CalendarDisconnectStage`.
pub record Stage : Type 0 where
  pub metadata : Metadata
  pub operation_id : ℕ
  pub disconnect_epoch : ℕ

abbrev staged_anew : Metadata → ℕ → ℕ → Stage
unfolding calendar_disconnect_epoch
staged_anew m operation_id now = record {
  metadata = record {
    disconnecting = true;
    disconnecting_at = some now;
    disconnect_operation_id = some operation_id;
    oauth_disconnect_epoch = some (suc (calendar_disconnect_epoch m));
  };
  operation_id = operation_id;
  disconnect_epoch = suc (calendar_disconnect_epoch m);
}

abbrev staged_before : Metadata → ℕ → Stage
unfolding calendar_disconnect_epoch
staged_before m operation_id = record {
  metadata = m;
  operation_id = operation_id;
  disconnect_epoch = calendar_disconnect_epoch m;
}

-- stageCalendarDisconnect: a staged operation is joined, otherwise a new one raises the epoch.
unfoldable pub stage_calendar_disconnect : Metadata → ℕ → ℕ → Stage
unfolding calendar_disconnect_epoch
stage_calendar_disconnect m operation_id now = elim m.disconnect_operation_id [
  | none ↦ staged_anew m operation_id now
  | some existing ↦
      if m.disconnecting then staged_before m existing else staged_anew m operation_id now
]

-- A row that `create({ data: { hostUserId, metadata } })` inserts.
abbrev pub new_calendar : ℕ → Metadata → HostCalendar
new_calendar host m = record {
  host = host;
  google_email = none;
  encrypted_access_token = none;
  encrypted_refresh_token = none;
  token_expires_at = none;
  mask_calendar_ids = [];
  target_calendar_id = none;
  auto_meet = true;
  metadata = m;
}

abbrev pub calendar_of : ℕ → List HostCalendar → Option HostCalendar
calendar_of host cs = row (λ c. c.host) host cs

-- Writes a host's row, inserted when it is missing.
unfoldable pub save_calendar :
    ℕ → HostCalendar → (HostCalendar → HostCalendar) → List HostCalendar → List HostCalendar
unfolding find_first update_where
save_calendar host created f cs = elim (calendar_of host cs) [
  | none ↦ cs ++ created ∷ []
  | some c ↦ update_where (λ r. r.host == host) f cs
]

-- The staging of a disconnection, once nothing depends on the calendar.
unfoldable pub stage_disconnect : ℕ → ℕ → ℕ → List HostCalendar → Stage × List HostCalendar
unfolding stage_calendar_disconnect save_calendar find_first
stage_disconnect now operation_id host cs =
    let stage = stage_calendar_disconnect (metadata_of (calendar_of host cs)) operation_id now in
    (
      stage,
      save_calendar host (new_calendar host stage.metadata)
          (λ c. record c { metadata = stage.metadata }) cs,
    )

-- releaseDisconnectStage.
unfoldable pub release_disconnect_stage : ℕ → ℕ → List HostCalendar → List HostCalendar
unfolding is_calendar_disconnect_operation stable_calendar_metadata find_first update_where
release_disconnect_stage host operation_id cs = elim (calendar_of host cs) [
  | none ↦ cs
  | some c ↦
      if is_calendar_disconnect_operation c.metadata operation_id
      then update_where (λ r. r.host == host)
          (λ r. record r { metadata = stable_calendar_metadata c.metadata }) cs
      else cs
]

pub data Finalized : Type 0 where
  retry already_done done : Finalized

abbrev pub without_grant : Metadata → HostCalendar → HostCalendar
without_grant m r = record r {
  google_email = none;
  encrypted_access_token = none;
  encrypted_refresh_token = none;
  token_expires_at = none;
  metadata = m;
}

-- The last transaction of the disconnect route.
unfoldable pub finalize_disconnect : ℕ → ℕ → List HostCalendar → Finalized × List HostCalendar
unfolding is_calendar_disconnect_operation stable_calendar_metadata find_first update_where
finalize_disconnect host operation_id cs = elim (calendar_of host cs) [
  | none ↦ (retry, cs)
  | some c ↦
      if is_calendar_disconnect_operation c.metadata operation_id
      then (
        done,
        update_where (λ r. r.host == host) (without_grant (stable_calendar_metadata c.metadata)) cs,
      )
      else if is_some c.encrypted_access_token
      then (retry, cs)
      else if is_some c.encrypted_refresh_token
      then (retry, cs)
      else (already_done, cs)
]

-- What exchangeGoogleCode and fetchGoogleEmail return.
pub record Grant : Type 0 where
  pub access_token : ℕ
  pub refresh_token : Option ℕ
  pub expires_in_seconds : ℕ
  pub email : Option ℕ

pub data Connection : Type 0 where
  stale account no_refresh connected token_error : Connection

abbrev pub connected_calendar : ℕ → Grant → HostCalendar → HostCalendar
connected_calendar now g c = record c {
  google_email = g.email;
  encrypted_access_token = some g.access_token;
  encrypted_refresh_token = or_else g.refresh_token c.encrypted_refresh_token;
  token_expires_at = some (now + g.expires_in_seconds * 1000);
}

abbrev pub refresh_of : Option HostCalendar → Option ℕ
refresh_of none = none
refresh_of (some c) = c.encrypted_refresh_token

-- The transaction of the callback once the state is current: `exchange` is Google's answer to the
-- code, `none` when it throws.
unfoldable pub connect_admitted :
    ℕ → Bool → Option Grant → ℕ → List HostCalendar → Connection × List HostCalendar
unfolding save_calendar find_first
connect_admitted now false exchange host cs = (account, cs)
connect_admitted now true none host cs = (token_error, cs)
connect_admitted now true (some g) host cs =
    if is_some (or_else g.refresh_token (refresh_of (calendar_of host cs)))
    then (
      connected,
      save_calendar host (connected_calendar now g (new_calendar host no_metadata))
          (connected_calendar now g) cs,
    )
    else (no_refresh, cs)

-- The transaction of the callback for a state of the epoch; `active` says whether the host is still
-- an active administrator.
unfoldable pub connect_calendar :
    ℕ → Bool → Option Grant → ℕ → ℕ → List HostCalendar → Connection × List HostCalendar
unfolding is_current_calendar_oauth_state connect_admitted find_first
connect_calendar now active exchange host epoch cs =
    if is_current_calendar_oauth_state (metadata_of (calendar_of host cs)) epoch
    then connect_admitted now active exchange host cs
    else (stale, cs)
