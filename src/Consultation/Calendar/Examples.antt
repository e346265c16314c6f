-- ===== src/Consultation/Calendar/Examples.antt =====
-- A host's calendar that is connected, disconnected and asked again with an old state.
use spottex_test.Energy.Deactivation.{retry_delay_ms}
use spottex_test.Common.{
  find_first, ◌+◌, ◌-◌, ◌≡◌, refl, none, some, [], ◌∷◌, List, Option, true, arith, throws, ltb,
  if◌then◌else◌,
}
use spottex_test.Consultation.Model.{HostCalendar, no_metadata}
use spottex_test.Consultation.Calendar.State.{
  is_calendar_disconnecting, stale, stage_disconnect, finalize_disconnect, connect_calendar,
  is_current_calendar_oauth_state,
}
use spottex_test.Consultation.Calendar.Google.{
  Google, refreshed, auth_error, get_google_access_token,
}
use spottex_test.Consultation.Calendar.OauthState.{
  Text, Claims, OauthState, sign_oauth_state, verify_oauth_state,
}
use spottex_test.Consultation.Calendar.Roundtrip.{has_dot, verify-sign}
use spottex_test.Consultation.Calendar.Epoch.{at_once, after, finishes, connect_calendar-stale}
use spottex_test.Consultation.Calendar.Overtaken.{get_google_access_token-overtaken}
use spottex_test.Consultation.Calendar.Backoff.{retry_delay_eq}
use spottex_test.Consultation.Calendar.Worker.{calendar_retry_delay_ms}

abbrev calendar : HostCalendar
calendar = record {
  host = 2;
  google_email = none;
  encrypted_access_token = none;
  encrypted_refresh_token = some 31;
  token_expires_at = none;
  mask_calendar_ids = [];
  target_calendar_id = some 5;
  auto_meet = true;
  metadata = no_metadata;
}

abbrev answering : Google
answering = record {
  refresh = λ t. refreshed 40 3600;
  events = λ t ids a b. some [];
  post_event = λ t r. none;
  read_event = λ t c e. none;
  delete_event = λ t c e. some 204;
  revoke = λ t. some 200;
}

abbrev after_disconnect : List HostCalendar
after_disconnect = (finalize_disconnect 2 9 (stage_disconnect 500 9 2 (calendar ∷ [])).1).1

connect_calendar-stale_example :
    connect_calendar 900 true
      (some (record {
        access_token = 1;
        refresh_token = some 2;
        expires_in_seconds = 3600;
        email = none;
      }))
      2
      0
      after_disconnect
    ≡ (stale, after_disconnect)
unfolding is_current_calendar_oauth_state find_first
connect_calendar-stale_example =
    connect_calendar-stale 500 9 2 0 900 true
      (some (record {
        access_token = 1;
        refresh_token = some 2;
        expires_in_seconds = 3600;
        email = none;
      }))
      (calendar ∷ []) after_disconnect refl (after (finishes 2 9) at_once)

get_google_access_token-overtaken_example :
    get_google_access_token answering
      (λ rows. (stage_disconnect 500 9 2 rows).1)
      400
      2
      (calendar ∷ [])
    ≡ (throws auth_error, (stage_disconnect 500 9 2 (calendar ∷ [])).1)
unfolding find_first is_calendar_disconnecting
get_google_access_token-overtaken_example =
    get_google_access_token-overtaken answering 400 500 9 2 31 40 3600 calendar (calendar ∷ []) refl
      refl refl refl refl

-- An encoding of states without dots: each number is a character above the dot.
abbrev encode : OauthState → Text
encode s = (s.user_id + 100) ∷ (s.issued_at + 100) ∷ (s.disconnect_epoch + 100) ∷ []

abbrev decode : Text → Option Claims
decode (a ∷ b ∷ c ∷ []) = some (record {
  user_id = some (a - 100);
  issued_at = some (b - 100);
  disconnect_epoch = some (c - 100);
})
decode _ = none

abbrev signature : Text → Text
signature t = 65 ∷ []

verify-sign_example :
    verify_oauth_state encode decode signature (102 ∷ 1100 ∷ 103 ∷ 46 ∷ 65 ∷ []) 2000 ≡ (
      if ltb 901000 2000
      then none
      else some (record { user_id = 2; issued_at = 1000; disconnect_epoch = 3 }))
unfolding sign_oauth_state has_dot
verify-sign_example =
    verify-sign encode decode signature (λ s. (ground arith, refl)) (λ t. (refl, refl))
      (λ s a b c. ground arith) 2 3 1000 2000 (102 ∷ 1100 ∷ 103 ∷ 46 ∷ 65 ∷ []) (omega arith) refl
      (omega arith)

retry_delay_eq_example : calendar_retry_delay_ms 16 ≡ 21600000
unfolding calendar_retry_delay_ms retry_delay_ms
retry_delay_eq_example = retry_delay_eq 16
