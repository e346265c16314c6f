-- ===== src/Consultation/Calendar/Epoch.antt =====
-- The epoch of a host's disconnections, along every write of the connection to Google.
use spottex_test.Common.{
  ℕ, ◌≤◌, ◌<◌, ◌≡◌, refl, ◌∙◌, subst, Bool, true, false, Option, none, some, List, ◌==◌,
  update_where, arith, inl, inr, Bool-cases, Option-cases, if◌then◌else◌, row_append_none,
  row_append_other, row_update_hit, row_update_other, row-update_where, row_key, ==_refl, ==→eq,
  is_some, or_else,
}
use spottex_test.Consultation.Model.{Metadata, HostCalendar, no_metadata}
use spottex_test.Consultation.Calendar.Google.{unchanged_since, with_token}
use spottex_test.Consultation.Calendar.State.{
  Grant, refresh_of, connected_calendar, without_grant, stale, calendar_of, metadata_of,
  new_calendar, is_calendar_disconnecting, calendar_disconnect_epoch,
  is_current_calendar_oauth_state, stable_calendar_metadata, is_calendar_disconnect_operation,
  stage_calendar_disconnect, save_calendar, stage_disconnect, release_disconnect_stage,
  finalize_disconnect, connect_calendar, connect_admitted,
}

abbrev epoch_at : ℕ → List HostCalendar → ℕ
unfolding calendar_disconnect_epoch
epoch_at host cs = calendar_disconnect_epoch (metadata_of (calendar_of host cs))

saved_row : HostCalendar → (HostCalendar → HostCalendar) → Option HostCalendar → HostCalendar
saved_row created f none = created
saved_row created f (some c) = f c

calendar_of-save :
    (g host : ℕ) (created : HostCalendar) (f : HostCalendar → HostCalendar) (cs : List HostCalendar)
    → created.host ≡ host
    → ((c : HostCalendar) → (f c).host ≡ c.host)
    → calendar_of g (save_calendar host created f cs)
      ≡ (if g == host then some (saved_row created f (calendar_of host cs)) else calendar_of g cs)
unfolding save_calendar saved_row
calendar_of-save g host created f cs named keep =
    let key = λ (c : HostCalendar). c.host in
    elim (Option-cases (calendar_of host cs)) [
      | inl e ↦ elim (Bool-cases (g == host)) [
        | inl same ↦
            rw (save_calendar, e, same, ==→eq g host same)
              (row_append_none key host cs created e ∙ (rw named (rw (==_refl host) refl)))
        | inr other ↦
            rw (save_calendar, e, other) (row_append_other key g cs created (ground arith))
      ]
      | inr (c, e) ↦ elim (Bool-cases (g == host)) [
        | inl same ↦
            rw (save_calendar, e, same, ==→eq g host same)
              (row_update_hit key host (λ r. r.host == host) f keep cs c e
                (ground (arith, row_key key host cs e)))
        | inr other ↦
            rw (save_calendar, e, other)
              (row_update_other key host g (λ r. r.host == host) f keep (λ r h. h) cs other)
      ]
    ]

-- A write of one row that does not lower its epoch lowers no host's epoch.
epoch_at-save :
    (g host : ℕ) (created : HostCalendar) (f : HostCalendar → HostCalendar) (cs : List HostCalendar)
    → created.host ≡ host
    → ((c : HostCalendar) → (f c).host ≡ c.host)
    → epoch_at host cs
      ≤ calendar_disconnect_epoch (saved_row created f (calendar_of host cs)).metadata
    → epoch_at g cs ≤ epoch_at g (save_calendar host created f cs)
unfolding epoch_at
epoch_at-save g host created f cs named keep le = elim (Bool-cases (g == host)) [
  | inl same ↦ rw (calendar_of-save g host created f cs named keep, same, ==→eq g host same) le
  | inr other ↦ rw (calendar_of-save g host created f cs named keep, other) (omega arith)
]

epoch_at-update :
    (g host : ℕ) (c : HostCalendar) (f : HostCalendar → HostCalendar) (cs : List HostCalendar)
    → calendar_of host cs ≡ some c
    → ((c : HostCalendar) → (f c).host ≡ c.host)
    → calendar_disconnect_epoch c.metadata ≤ calendar_disconnect_epoch (f c).metadata
    → epoch_at g cs ≤ epoch_at g (update_where (λ r. r.host == host) f cs)
unfolding saved_row save_calendar epoch_at calendar_disconnect_epoch
epoch_at-update g host c f cs e keep le =
    subst (λ ds. epoch_at g cs ≤ epoch_at g ds) (rw (save_calendar, e) refl)
      (epoch_at-save g host c f cs (row_key (λ (c : HostCalendar). c.host) host cs e) keep
        (rw e le))

stage-raises :
    (now op : ℕ) (m : Metadata)
    → calendar_disconnect_epoch m
      ≤ calendar_disconnect_epoch (stage_calendar_disconnect m op now).metadata
unfolding stage_calendar_disconnect calendar_disconnect_epoch
stage-raises now op m = ground arith

stage_disconnect-raises :
    (g now op host : ℕ) (cs : List HostCalendar)
    → epoch_at g cs ≤ epoch_at g (stage_disconnect now op host cs).1
unfolding stage_disconnect saved_row
stage_disconnect-raises g now op host cs =
    let m = (stage_calendar_disconnect (metadata_of (calendar_of host cs)) op now).metadata in
    epoch_at-save g host (new_calendar host m) (λ c. record c { metadata = m }) cs refl (λ c. refl)
      (elim (Option-cases (calendar_of host cs)) [
        | inl e ↦ rw e (stage-raises now op no_metadata)
        | inr (c, e) ↦ rw e (stage-raises now op c.metadata)
      ])

admitted-raises :
    (g now host : ℕ) (active : Bool) (exchange : Option Grant) (cs : List HostCalendar)
    → epoch_at g cs ≤ epoch_at g (connect_admitted now active exchange host cs).1
unfolding connect_admitted saved_row calendar_disconnect_epoch
admitted-raises g now host false exchange cs = omega arith
admitted-raises g now host true none cs = omega arith
admitted-raises g now host true (some t) cs =
    elim (Bool-cases (is_some (or_else t.refresh_token (refresh_of (calendar_of host cs))))) [
      | inr f ↦ rw (connect_admitted, f) (omega arith)
      | inl f ↦
          rw (connect_admitted, f)
            (epoch_at-save g host (connected_calendar now t (new_calendar host no_metadata))
              (connected_calendar now t) cs refl (λ c. refl)
              (elim (Option-cases (calendar_of host cs)) [
                | inl h ↦ rw h (omega arith)
                | inr (c, h) ↦ rw h (omega arith)
              ]))
    ]

connect_calendar-raises :
    (g now host epoch : ℕ) (active : Bool) (exchange : Option Grant) (cs : List HostCalendar)
    → epoch_at g cs ≤ epoch_at g (connect_calendar now active exchange host epoch cs).1
unfolding connect_calendar saved_row calendar_disconnect_epoch
connect_calendar-raises g now host epoch active exchange cs =
    elim (Bool-cases (is_current_calendar_oauth_state (metadata_of (calendar_of host cs)) epoch)) [
      | inr e ↦ rw (connect_calendar, e) (omega arith)
      | inl e ↦ rw (connect_calendar, e) (admitted-raises g now host active exchange cs)
    ]

release_disconnect_stage-raises :
    (g host op : ℕ) (cs : List HostCalendar)
    → epoch_at g cs ≤ epoch_at g (release_disconnect_stage host op cs)
unfolding release_disconnect_stage stable_calendar_metadata calendar_disconnect_epoch
release_disconnect_stage-raises g host op cs = elim (Option-cases (calendar_of host cs)) [
  | inl e ↦ rw (release_disconnect_stage, e) (omega arith)
  | inr (c, e) ↦ elim (Bool-cases (is_calendar_disconnect_operation c.metadata op)) [
    | inr f ↦ rw (release_disconnect_stage, e, f) (omega arith)
    | inl f ↦
        rw (release_disconnect_stage, e, f)
          (epoch_at-update g host c
            (λ r. record r { metadata = stable_calendar_metadata c.metadata }) cs e (λ r. refl)
            (omega arith))
  ]
]

finalize_disconnect-raises :
    (g host op : ℕ) (cs : List HostCalendar)
    → epoch_at g cs ≤ epoch_at g (finalize_disconnect host op cs).1
unfolding finalize_disconnect stable_calendar_metadata calendar_disconnect_epoch
finalize_disconnect-raises g host op cs = elim (Option-cases (calendar_of host cs)) [
  | inl e ↦ rw (finalize_disconnect, e) (omega arith)
  | inr (c, e) ↦ elim (Bool-cases (is_calendar_disconnect_operation c.metadata op)) [
    | inl f ↦
        rw (finalize_disconnect, e, f)
          (epoch_at-update g host c (without_grant (stable_calendar_metadata c.metadata)) cs e
            (λ r. refl) (omega arith))
    | inr f ↦ elim (Bool-cases (is_some c.encrypted_access_token)) [
      | inl h ↦ rw (finalize_disconnect, e, f, h) (omega arith)
      | inr h ↦ elim (Bool-cases (is_some c.encrypted_refresh_token)) [
        | inl k ↦ rw (finalize_disconnect, e, f, h, k) (omega arith)
        | inr k ↦ rw (finalize_disconnect, e, f, h, k) (omega arith)
      ]
    ]
  ]
]

-- The writes of a connection: staging, releasing and finishing a disconnection, connecting, and the
-- token that a refresh leaves.
infix 20 ◌⇝◌
pub data ◌⇝◌ : List HostCalendar → List HostCalendar → Type 0 where
  stages : {cs : List HostCalendar} (now op host : ℕ) → cs ⇝ (stage_disconnect now op host cs).1
  unstages : {cs : List HostCalendar} (host op : ℕ) → cs ⇝ release_disconnect_stage host op cs
  finishes : {cs : List HostCalendar} (host op : ℕ) → cs ⇝ (finalize_disconnect host op cs).1
  attaches :
      {cs : List HostCalendar} (now host epoch : ℕ) (active : Bool) (exchange : Option Grant)
      → cs ⇝ (connect_calendar now active exchange host epoch cs).1
  refreshes :
      {cs : List HostCalendar} (now token seconds : ℕ) (c : HostCalendar)
      → cs ⇝ update_where (unchanged_since c) (with_token now token seconds) cs

infix 20 ◌⇝*◌
pub data ◌⇝*◌ : List HostCalendar → List HostCalendar → Type 0 where
  at_once : {cs : List HostCalendar} → cs ⇝* cs
  after : {cs ds es : List HostCalendar} → cs ⇝ ds → ds ⇝* es → cs ⇝* es

refresh-keeps :
    (g now token seconds : ℕ) (c : HostCalendar) (cs : List HostCalendar)
    → epoch_at g cs
      ≤ epoch_at g (update_where (unchanged_since c) (with_token now token seconds) cs)
unfolding epoch_at
refresh-keeps g now token seconds c cs =
    let updated =
      row-update_where (λ (c : HostCalendar). c.host) (unchanged_since c)
        (with_token now token seconds) (λ r. refl) g cs in
    elim (Option-cases (calendar_of g cs)) [
      | inl e ↦ rw (updated, e) (omega arith)
      | inr (r, e) ↦ elim (Bool-cases (unchanged_since c r)) [
        | inl f ↦ rw (updated, e, f) (omega arith)
        | inr f ↦ rw (updated, e, f) (omega arith)
      ]
    ]

writes-raise : (g : ℕ) {cs ds : List HostCalendar} → cs ⇝ ds → epoch_at g cs ≤ epoch_at g ds
writes-raise g (stages {cs = cs} now op host) = stage_disconnect-raises g now op host cs
writes-raise g (unstages {cs = cs} host op) = release_disconnect_stage-raises g host op cs
writes-raise g (finishes {cs = cs} host op) = finalize_disconnect-raises g host op cs
writes-raise g (attaches {cs = cs} now host epoch active exchange) =
    connect_calendar-raises g now host epoch active exchange cs
writes-raise g (refreshes {cs = cs} now token seconds c) = refresh-keeps g now token seconds c cs

all-raise : (g : ℕ) {cs ds : List HostCalendar} → cs ⇝* ds → epoch_at g cs ≤ epoch_at g ds
all-raise g at_once = omega arith
all-raise g (after step steps) =
    let one = writes-raise g step in let rest = all-raise g steps in omega (arith, one, rest)

-- A disconnection that is staged on a calendar for which a signed state is current raises the epoch.
fresh-stage :
    (now op epoch : ℕ) (m : Metadata)
    → is_current_calendar_oauth_state m epoch ≡ true
    → epoch < calendar_disconnect_epoch (stage_calendar_disconnect m op now).metadata
unfolding is_current_calendar_oauth_state stage_calendar_disconnect calendar_disconnect_epoch
    is_calendar_disconnecting
fresh-stage now op epoch m h = ground arith

stage-overtakes :
    (now op host epoch : ℕ) (cs : List HostCalendar)
    → is_current_calendar_oauth_state (metadata_of (calendar_of host cs)) epoch ≡ true
    → epoch < epoch_at host (stage_disconnect now op host cs).1
unfolding stage_disconnect epoch_at saved_row
stage-overtakes now op host epoch cs h =
    let m = metadata_of (calendar_of host cs) in
    let s = stage_calendar_disconnect m op now in
    let saved =
      calendar_of-save host host (new_calendar host s.metadata)
        (λ c. record c { metadata = s.metadata }) cs refl (λ c. refl) in
    rw (saved, ==_refl host)
      (elim (Option-cases (calendar_of host cs)) [
        | inl e ↦ rw e (fresh-stage now op epoch no_metadata (rw e at h))
        | inr (c, e) ↦ rw e (fresh-stage now op epoch c.metadata (rw e at h))
      ])

-- A signed state that was current when a disconnection was staged is never accepted again: whatever
-- is written to the connections afterwards, the callback answers that it is stale and writes nothing.
pub connect_calendar-stale :
    (now op host epoch later : ℕ) (active : Bool) (exchange : Option Grant)
    (cs ds : List HostCalendar)
    → is_current_calendar_oauth_state (metadata_of (calendar_of host cs)) epoch ≡ true
    → (stage_disconnect now op host cs).1 ⇝* ds
    → connect_calendar later active exchange host epoch ds ≡ (stale, ds)
unfolding connect_calendar is_current_calendar_oauth_state epoch_at
connect_calendar-stale now op host epoch later active exchange cs ds h steps =
    let over = stage-overtakes now op host epoch cs h in
    let rest = all-raise host steps in
    let passed : is_current_calendar_oauth_state (metadata_of (calendar_of host ds)) epoch ≡ false =
      ground arith in
    rw (connect_calendar, passed) refl
