-- ===== src/Consultation/Calendar/Overtaken.antt =====
-- A refresh of a token that a disconnection overtakes: getGoogleAccessToken of
-- src/lib/consultation/google-calendar.ts against the stage of the disconnect route.
use spottex_test.Common.{
  ℕ, ◌≡◌, refl, Bool, true, false, none, some, List, [], ◌∷◌, ◌==◌, throws, count_where,
  update_where, arith, row_key,
}
use spottex_test.Consultation.Model.{Metadata, HostCalendar}
use spottex_test.Consultation.Calendar.State.{
  calendar_of, is_calendar_disconnecting, stage_calendar_disconnect, save_calendar,
  stage_disconnect,
}
use spottex_test.Consultation.Calendar.Google.{
  Google, auth_error, refreshed, unchanged_since, fresh_token, persist_token, same_metadata,
  get_google_access_token,
}

none_unchanged :
    (p q : HostCalendar → Bool) (f : HostCalendar → HostCalendar)
    → ((r : HostCalendar) → p (f r) ≡ false)
    → ((r : HostCalendar) → q r ≡ false → p r ≡ false)
    → (cs : List HostCalendar) → count_where p (update_where q f cs) ≡ 0
unfolding count_where update_where
none_unchanged p q f written others [] = refl
none_unchanged p q f written others (r ∷ rs) =
    ground (arith, written r, others r, none_unchanged p q f written others rs)

stage-disconnecting :
    (now op : ℕ) (m : Metadata)
    → is_calendar_disconnecting m ≡ false
    → (stage_calendar_disconnect m op now).metadata.disconnecting ≡ true
unfolding stage_calendar_disconnect is_calendar_disconnecting
stage-disconnecting now op m h = ground arith

stale-metadata :
    (c : HostCalendar) (m : Metadata) (r : HostCalendar)
    → is_calendar_disconnecting c.metadata ≡ false
    → m.disconnecting ≡ true
    → unchanged_since c (record r { metadata = m }) ≡ false
unfolding unchanged_since same_metadata is_calendar_disconnecting
stale-metadata c m r h k = ground arith

other_host :
    (host : ℕ) (c r : HostCalendar)
    → c.host ≡ host
    → (r.host == host) ≡ false
    → unchanged_since c r ≡ false
unfolding unchanged_since
other_host host c r named h = ground arith

staged_unchanged :
    (now op host : ℕ) (c : HostCalendar) (cs : List HostCalendar)
    → calendar_of host cs ≡ some c
    → is_calendar_disconnecting c.metadata ≡ false
    → count_where (unchanged_since c) (stage_disconnect now op host cs).1 ≡ 0
unfolding stage_disconnect save_calendar
staged_unchanged now op host c cs e quiet =
    let m = (stage_calendar_disconnect c.metadata op now).metadata in
    rw (stage_disconnect, e, save_calendar, e)
      (none_unchanged (unchanged_since c) (λ r. r.host == host) (λ r. record r { metadata = m })
        (λ r. stale-metadata c m r quiet (stage-disconnecting now op c.metadata quiet))
        (λ r h. other_host host c r (row_key (λ (c : HostCalendar). c.host) host cs e) h) cs)

-- A token that Google refreshes is not written to a connection whose disconnection was staged while
-- Google answered: the caller gets the authorization error, and the rows are those that the stage left.
pub get_google_access_token-overtaken :
    (google : Google) (now at op host t token seconds : ℕ) (c : HostCalendar)
    (cs : List HostCalendar)
    → calendar_of host cs ≡ some c
    → c.encrypted_refresh_token ≡ some t
    → is_calendar_disconnecting c.metadata ≡ false
    → fresh_token now c ≡ none
    → google.refresh t ≡ refreshed token seconds
    → get_google_access_token google (λ rows. (stage_disconnect at op host rows).1) now host cs
      ≡ (throws auth_error, (stage_disconnect at op host cs).1)
unfolding get_google_access_token persist_token
get_google_access_token-overtaken google now at op host t token seconds c cs e grant quiet old
      answer =
    rw
      (
        get_google_access_token,
        e,
        grant,
        quiet,
        old,
        answer,
        persist_token,
        staged_unchanged at op host c cs e quiet,
      )
      refl
