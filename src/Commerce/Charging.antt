-- ===== src/Commerce/Charging.antt =====
-- What the renewal attempts of recurring.ts guarantee: when a charge is prepared, and that it is
-- prepared once.
use spottex_test.Common.{
  ℕ, suc, ◌≤◌, ◌<◌, ◌≡◌, refl, ◌∙◌, ap, true, none, some, arith, ◌==◌, ==_refl, row,
  row-update_where, inl, inr, Option-cases, Bool-cases,
}
use spottex_test.Jobs.Model.{MailKey, has_mail, renewal_notice}
use spottex_test.Commerce.Model.{Payment, Mandate, Renewal, active_mandate, notice_sent, scheduled}
use spottex_test.Commerce.Store.{Store, queue_mail, is_chargeable}
use spottex_test.Commerce.Renewal.{
  find_renewal, find_mandate, write_renewal, attempt_payment, claimed, claim_attempt, attempt_with,
  prepare_attempt, notifiable, send_notice,
}

-- The conditions under which an attempt charges, and what it leaves.
pub record Charged (now id : ℕ) (p : Payment) (s s' : Store) : Type 0 where
  pub renewal : Renewal
  pub mandate : Mandate
  pub found : find_renewal id s ≡ some renewal
  pub chargeable : is_chargeable renewal.status ≡ true
  pub due : renewal.scheduled_at ≤ now
  pub pause_over : (t : ℕ) → renewal.next_attempt_at ≡ some t → t ≤ now
  pub attempts_left : renewal.attempt_count < 3
  pub mandate_found : find_mandate renewal.mandate_id s ≡ some mandate
  pub mandate_active : mandate.status ≡ active_mandate
  pub consent_valid : (t : ℕ) → mandate.valid_until ≡ some t → now < t
  pub amount : p.amount_minor ≡ renewal.amount_minor
  pub claim : find_renewal id s' ≡ some (claimed renewal)

claims_with :
    (now : ℕ) (r : Renewal) (m : Mandate) (s s' : Store) (p : Payment)
    → attempt_with now r m s ≡ (some p, s')
    → (m.status ≡ active_mandate)
      × ((t : ℕ) → m.valid_until ≡ some t → now < t)
      × (r.attempt_count < 3)
      × (claim_attempt now r m s ≡ (some p, s'))
unfolding attempt_with
claims_with now r m s s' p h = (ground arith, λ t e. ground arith, ground arith, ground arith)

claim_lem :
    (now : ℕ) (r : Renewal) (m : Mandate) (s s' : Store) (p : Payment)
    → claim_attempt now r m s ≡ (some p, s')
    → (p.amount_minor ≡ r.amount_minor) × (s'.renewals ≡ (write_renewal r.id claimed s).renewals)
unfolding claim_attempt
claim_lem now r m s s' p h = ground arith

find-claimed :
    (id : ℕ) (r : Renewal) (s : Store)
    → find_renewal id s ≡ some r
    → find_renewal id (write_renewal r.id claimed s) ≡ some (claimed r)
find-claimed id r s h =
    row-update_where (λ x. x.id) (λ x. x.id == r.id) claimed (λ x. refl) id s.renewals
    ∙ rw h (ground (arith, ==_refl r.id))

prepares :
    (now id : ℕ) (s s' : Store) (p : Payment) (r : Renewal)
    → find_renewal id s ≡ some r
    → prepare_attempt now id s ≡ (some p, s')
    → (is_chargeable r.status ≡ true)
      × (r.scheduled_at ≤ now)
      × ((t : ℕ) → r.next_attempt_at ≡ some t → t ≤ now)
      × ((m : Mandate) × (find_mandate r.mandate_id s ≡ some m)
          × (attempt_with now r m s ≡ (some p, s')))
unfolding prepare_attempt
prepares now id s s' p r found h = (
  ground arith,
  ground arith,
  λ t e. ground arith,
  elim (Option-cases (find_mandate r.mandate_id s)) [
    | inl e ↦ absurd (ground arith)
    | inr (m, e) ↦ (m, e, ground arith)
  ],
)

find_renewal_of :
    (now id : ℕ) (s s' : Store) (p : Payment)
    → prepare_attempt now id s ≡ (some p, s')
    → (r : Renewal) × (find_renewal id s ≡ some r)
unfolding prepare_attempt
find_renewal_of now id s s' p h = elim (Option-cases (find_renewal id s)) [
  | inl e ↦ absurd (ground arith)
  | inr (r, e) ↦ (r, e)
]

pub prepare_charges :
    (now id : ℕ) (s s' : Store) (p : Payment)
    → prepare_attempt now id s ≡ (some p, s')
    → Charged now id p s s'
prepare_charges now id s s' p h =
    let (r, found) = find_renewal_of now id s s' p h in
    let (c, d, pause, mandates) = prepares now id s s' p r found h in
    let (m, at_m, a) = mandates in
    let (active, valid, left, cl) = claims_with now r m s s' p a in
    let (amount, e) = claim_lem now r m s s' p cl in
    record {
      renewal = r;
      mandate = m;
      found = found;
      chargeable = c;
      due = d;
      pause_over = pause;
      attempts_left = left;
      mandate_found = at_m;
      mandate_active = active;
      consent_valid = valid;
      amount = amount;
      claim = ap (row (λ x. x.id) id) e ∙ find-claimed id r s found;
    }

claimed_again :
    (later id : ℕ) (s : Store) (r : Renewal)
    → find_renewal id s ≡ some (claimed r)
    → prepare_attempt later id s ≡ (none, s)
unfolding prepare_attempt
claimed_again later id s r h = rw (h, prepare_attempt)

-- While an attempt is open, no second one is prepared: the same call at any time returns nothing and
-- leaves the whole store as it is.
pub prepare_once :
    (now later id : ℕ) (s s' : Store) (p : Payment)
    → prepare_attempt now id s ≡ (some p, s')
    → prepare_attempt later id s' ≡ (none, s')
prepare_once now later id s s' p h =
    let c = prepare_charges now id s s' p h in claimed_again later id s' c.renewal c.claim

announced : ℕ → Renewal → Renewal
announced now r = record r { status = notice_sent; notice_sent_at = some now }

mailed :
    (now : ℕ) (k : MailKey) (u : ℕ) (s : Store)
    → ((queue_mail now k u s).renewals ≡ s.renewals)
      × ((queue_mail now k u s).mandates ≡ s.mandates)
unfolding queue_mail
mailed now k u s = elim (Bool-cases (has_mail k s.outbox)) [
  | inl e ↦ rw e (refl, refl)
  | inr e ↦ rw e (refl, refl)
]

notice_row :
    (now : ℕ) (r : Renewal) (s : Store)
    → find_renewal r.id s ≡ some r
    → r.status ≡ scheduled
    → r.notice_sent_at ≡ none
    → (find_renewal r.id (send_notice now r s).1 ≡ some (announced now r))
      × ((send_notice now r s).1.mandates ≡ s.mandates)
unfolding send_notice announced
notice_row now r s found h n =
    let (e, f) = mailed now (renewal_notice r.id) r.user_id s in
    (
      row-update_where (λ x. x.id) (notifiable r.id)
            (λ x. record x { status = notice_sent; notice_sent_at = some now }) (λ x. refl) r.id
            (queue_mail now (renewal_notice r.id) r.user_id s).renewals
          ∙ rw (e, found, h, n, ==_refl r.id) refl,
      f,
    )

charges_announced :
    (later : ℕ) (r : Renewal) (m : Mandate) (s : Store)
    → find_renewal r.id s ≡ some r
    → is_chargeable r.status ≡ true
    → r.next_attempt_at ≡ none
    → r.scheduled_at ≤ later
    → r.attempt_count < 3
    → find_mandate r.mandate_id s ≡ some m
    → m.status ≡ active_mandate
    → m.valid_until ≡ none
    → (p : Payment) × ((prepare_attempt later r.id s).0 ≡ some p)
unfolding prepare_attempt attempt_with claim_attempt
charges_announced later r m s found c n due left at_m active v =
    (attempt_payment later (suc s.next_id) s.next_id r m.provider, ground arith)

-- A renewal's charge is prepared as soon as its time has come, however short the notice was: if the
-- notice of a scheduled renewal is sent at `now`, under an active mandate without an end, then its first attempt
-- charges at any later time that is not before the scheduled one.
pub charged_on_short_notice :
    (now later : ℕ) (r : Renewal) (m : Mandate) (s : Store)
    → find_renewal r.id s ≡ some r
    → r.status ≡ scheduled
    → r.notice_sent_at ≡ none
    → r.next_attempt_at ≡ none
    → r.attempt_count ≡ 0
    → r.scheduled_at ≤ later
    → find_mandate r.mandate_id s ≡ some m
    → m.status ≡ active_mandate
    → m.valid_until ≡ none
    → (p : Payment) × ((prepare_attempt later r.id (send_notice now r s).1).0 ≡ some p)
unfolding announced
charged_on_short_notice now later r m s found h n next zero_attempts due at_m active v =
    let (e, f) = notice_row now r s found h n in
    charges_announced later (announced now r) m (send_notice now r s).1 e refl next due
      (ground arith) (ap (row (λ x. x.id) r.mandate_id) f ∙ at_m) active v
