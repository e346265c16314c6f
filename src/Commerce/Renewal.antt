-- ===== src/Commerce/Renewal.antt =====
-- src/lib/commerce/recurring.ts: the attempts to charge a renewal, and the revocation of a mandate.
use spottex_test.Common.{
  ℕ, suc, ◌+◌, Bool, true, false, ◌&&◌, ◌||◌, not, Option, none, some, List, [], ◌∷◌, ◌++◌, ◌==◌,
  ltb, leb, if◌then◌else◌, find_first, find_many, sort_by, take, row, update_where, count_where,
  has_number, is_some, Result, ok, throws,
}
use spottex_test.Jobs.Model.{renewal_notice}
use spottex_test.Commerce.Policy.{recurring_renewal_max_attempts, recurring_retry_at}
use spottex_test.Commerce.Model.{
  Cart, checkout, canceled_cart, Payment, pending, failed, Provider, mandate_repeat, create_failed,
  Mandate, revoked, expired_mandate, Renewal, notice_sent, charge_pending, retry, failed_renewal,
  canceled_renewal,
}
use spottex_test.Commerce.Store.{
  Store, CommerceError, recurring_mandate_not_found, recurring_mandate_revoked, is_active_mandate,
  is_chargeable, is_charge_pending, is_scheduled, is_pending, in_checkout, empty_payload,
  find_payment, log, queue_mail,
}

-- "Souhlas s opakovanou platbou vypršel.", and the messages of a failed attempt.
abbrev pub consent_expired_message : ℕ
consent_expired_message = 2

abbrev pub find_renewal : ℕ → Store → Option Renewal
find_renewal i s = row (λ r. r.id) i s.renewals

abbrev pub find_mandate : ℕ → Store → Option Mandate
find_mandate i s = row (λ m. m.id) i s.mandates

abbrev pub write_renewal : ℕ → (Renewal → Renewal) → Store → Store
write_renewal i f s = record s { renewals = update_where (λ r. r.id == i) f s.renewals }

abbrev pub write_mandate : ℕ → (Mandate → Mandate) → Store → Store
write_mandate i f s = record s { mandates = update_where (λ m. m.id == i) f s.mandates }

-- `!value || value <= now` of an optional time, and its reverse.
abbrev is_later : Option ℕ → ℕ → Bool
is_later none now = false
is_later (some t) now = ltb now t

abbrev is_over : Option ℕ → ℕ → Bool
is_over none now = false
is_over (some t) now = leb t now

-- The cart and the payment of an attempt.
abbrev pub attempt_cart : ℕ → Renewal → Cart
attempt_cart id r = record {
  id = id;
  user_id = r.user_id;
  status = checkout;
  currency = r.currency;
  total_minor = r.amount_minor;
  items =
      record {
        product = r.product;
        quantity = 1;
        unit_price_minor = r.amount_minor;
        product_name = r.product_name;
        analysis_run_id = none;
        service_offer_id = none;
      }
      ∷ [];
}

abbrev pub attempt_payment : ℕ → ℕ → ℕ → Renewal → Provider → Payment
attempt_payment now id cart_id r provider = record {
  id = id;
  user_id = r.user_id;
  cart_id = some cart_id;
  provider = provider;
  provider_payment_id = none;
  status = pending;
  amount_minor = r.amount_minor;
  currency = r.currency;
  payload = empty_payload;
  charge_kind = mandate_repeat;
  mandate_id = some r.mandate_id;
  service_offer_id = none;
  renewal_id = some r.id;
  analysis_run_id = none;
  paid_at = none;
  created_at = now;
  updated_at = now;
}

-- The claim of the renewal, its cart and its payment. The `updateMany` of the claim repeats what was
-- read in the same transaction, so it finds the row.
abbrev pub claimed : Renewal → Renewal
claimed r = record r {
  status = charge_pending;
  attempt_count = suc r.attempt_count;
  next_attempt_at = none;
  last_error = none;
}

unfoldable pub claim_attempt : ℕ → Renewal → Mandate → Store → Option Payment × Store
unfolding update_where
claim_attempt now r m s =
    let cart_id = s.next_id in
    let p = attempt_payment now (suc cart_id) cart_id r m.provider in
    (
      some p,
      record (write_renewal r.id claimed s) {
        carts = s.carts ++ attempt_cart cart_id r ∷ [];
        payments = s.payments ++ p ∷ [];
        next_id = suc (suc cart_id);
      },
    )

unfoldable pub attempt_with : ℕ → Renewal → Mandate → Store → Option Payment × Store
unfolding update_where
attempt_with now r m s =
    if not (is_active_mandate m.status)
    then (
      none,
      write_renewal r.id (λ x. record x { status = canceled_renewal; completed_at = some now }) s,
    )
    else if is_over m.valid_until now
    then (
      none,
      write_renewal r.id
          (λ x. record x {
            status = failed_renewal;
            completed_at = some now;
            last_error = some consent_expired_message;
          })
          (write_mandate m.id (λ x. record x { status = expired_mandate }) s),
    )
    else if ltb recurring_renewal_max_attempts (suc r.attempt_count)
    then (none, s)
    else claim_attempt now r m s

-- `renewal.scheduledAt > now || (renewal.nextAttemptAt && renewal.nextAttemptAt > now)`.
abbrev pub not_due : ℕ → Renewal → Bool
not_due now r = ltb now r.scheduled_at || is_later r.next_attempt_at now

-- prepareAttempt: the payment to charge, if there is one.
unfoldable pub prepare_attempt : ℕ → ℕ → Store → Option Payment × Store
unfolding find_first
prepare_attempt now id s = elim (find_renewal id s) [
  | none ↦ (none, s)
  | some r ↦
      if not (is_chargeable r.status) || not_due now r
      then (none, s)
      else (elim (find_mandate r.mandate_id s) [
        | none ↦ (none, s)
        | some m ↦ attempt_with now r m s
      ])
]

-- A failed attempt: retried later, or FAILED after the last one.
abbrev pub failed_attempt : ℕ → ℕ → Renewal → Renewal
failed_attempt now message r = elim (recurring_retry_at now r.attempt_count) [
  | some t ↦ record r { status = retry; next_attempt_at = some t; last_error = some message }
  | none ↦ record r { status = failed_renewal; completed_at = some now; last_error = some message }
]

abbrev pub unlinked_pending : ℕ → Payment → Bool
unlinked_pending i p = p.id == i && is_pending p.status && not (is_some p.provider_payment_id)

-- `payments: { some: { id: paymentId } }`.
abbrev cart_of_payment : Option Payment → Cart → Bool
cart_of_payment none c = false
cart_of_payment (some p) c = has_number p.cart_id c.id && in_checkout c.status

-- failAttempt.
unfoldable pub fail_attempt : ℕ → ℕ → ℕ → ℕ → Store → Store
unfolding find_first update_where recurring_retry_at
fail_attempt now payment_id renewal_id message s = elim (find_renewal renewal_id s) [
  | none ↦ s
  | some r ↦
      if is_charge_pending r.status
      then write_renewal r.id (failed_attempt now message) (record s {
        payments =
            update_where (unlinked_pending payment_id)
              (λ p. record p {
                status = failed;
                payload = record empty_payload { state = some create_failed };
                updated_at = now;
              })
              s.payments;
        carts =
            update_where (cart_of_payment (find_payment payment_id s))
              (λ c. record c { status = canceled_cart }) s.carts;
      })
      else s
]

-- sendRenewalNotices: a mail and NOTICE_SENT for each renewal whose notice is due.
abbrev pub notice_due : ℕ → Renewal → Bool
notice_due now r = is_scheduled r.status && leb r.notice_at now

abbrev pub notifiable : ℕ → Renewal → Bool
notifiable i r = r.id == i && is_scheduled r.status && not (is_some r.notice_sent_at)

unfoldable pub send_notice : ℕ → Renewal → Store → ℕ × Store
unfolding update_where count_where queue_mail
send_notice now r s =
    let s' = queue_mail now (renewal_notice r.id) r.user_id s in
    (
      count_where (notifiable r.id) s'.renewals,
      record s' {
        renewals =
            update_where (notifiable r.id)
              (λ x. record x { status = notice_sent; notice_sent_at = some now }) s'.renewals;
      },
    )

unfoldable pub send_notices : ℕ → List Renewal → Store → ℕ × Store
unfolding send_notice
send_notices now [] s = (0, s)
send_notices now (r ∷ rs) s =
    let (n, s₁) = send_notice now r s in let (m, s₂) = send_notices now rs s₁ in (n + m, s₂)

unfoldable pub send_renewal_notices : ℕ → Store → ℕ × Store
unfolding send_notices find_many sort_by
send_renewal_notices now s =
    send_notices now (take 200 (sort_by (λ r. r.notice_at) (find_many (notice_due now) s.renewals)))
      s

-- revokeRecurringMandate up to the request: the mandate is REVOKED and its open renewals CANCELED.
abbrev pub cancelable : ℕ → Renewal → Bool
cancelable m r = r.mandate_id == m && (is_scheduled r.status || is_chargeable r.status)

abbrev pub is_revoked : Mandate → Bool
is_revoked m = elim m.status [ revoked ↦ true | _ ↦ false ]

unfoldable pub revoke_mandate : ℕ → ℕ → ℕ → Store → Result CommerceError Store
unfolding find_first update_where
revoke_mandate now user_id id s =
    elim (find_first (λ m. m.id == id && m.user_id == user_id) s.mandates) [
      | none ↦ throws recurring_mandate_not_found
      | some m ↦
          if is_revoked m
          then ok s
          else ok (
              log user_id recurring_mandate_revoked id (record s {
                mandates =
                    update_where (λ x. x.id == m.id)
                      (λ x. record x { status = revoked; revoked_at = some now }) s.mandates;
                renewals =
                    update_where (cancelable m.id)
                      (λ r. record r {
                        status = canceled_renewal;
                        completed_at = some now;
                        next_attempt_at = none;
                      })
                      s.renewals;
              }))
    ]
