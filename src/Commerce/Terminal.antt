-- ===== src/Commerce/Terminal.antt =====
-- cancelTerminalGopayPayment and recordGopayRefund of src/lib/commerce/payment.ts.
use spottex_test.Common.{
  ℕ, ◌+◌, Bool, true, false, ◌&&◌, Option, none, some, List, ◌==◌, leb, if◌then◌else◌, has_number,
  find_first, row, update_where, or_throw, Result, ok, throws, ◌>>=◌,
}
use spottex_test.Jobs.Model.{Job, gopay_refund}
use spottex_test.Commerce.Policy.{day_ms}
use spottex_test.Commerce.Model.{
  Payment, canceled, refunded, retry, failed_renewal, canceled_subscription, Payload, Renewal,
  Subscription,
}
use spottex_test.Commerce.Store.{
  Store, CommerceError, payment_not_found, gopay_refund_without_paid_payment,
  gopay_payment_canceled, gopay_payment_refunded, is_paid, is_payable, is_refunded, is_settled,
  is_refundable, is_charge_pending, merge, find_payment, write_payment, log, enqueue_deactivation,
}
use spottex_test.Commerce.Carts.{reopen_from_checkout}

-- "GoPay opakovanou platbu zamítl."
abbrev pub declined_message : ℕ
declined_message = 1

-- A declined renewal: FAILED after three attempts, otherwise retried a day later.
abbrev pub declined : ℕ → ℕ → Renewal → Renewal
declined now attempts r =
    if leb 3 attempts
    then record r {
      status = failed_renewal;
      completed_at = some now;
      last_error = some declined_message;
      next_attempt_at = none;
    }
    else record r {
      status = retry;
      last_error = some declined_message;
      next_attempt_at = some (now + day_ms);
    }

unfoldable pub decline_renewal : ℕ → Option ℕ → Store → Store
unfolding find_first update_where
decline_renewal now none s = s
decline_renewal now (some i) s = elim (row (λ r. r.id) i s.renewals) [
  | none ↦ s
  | some r ↦ record s {
    renewals =
        update_where (λ x. x.id == i && is_charge_pending x.status) (declined now r.attempt_count)
          s.renewals;
  }
]

unfoldable pub release_cart : Payment → Store → Store
unfolding reopen_from_checkout
release_cart p s = elim p.cart_id [ none ↦ s | some c ↦ reopen_from_checkout c p.user_id s ]

-- The write of the payment that is still payable, and what follows it.
unfoldable pub cancel_payable : ℕ → Payload → Payment → Store → Store
unfolding decline_renewal release_cart
cancel_payable now payload p s = log p.user_id gopay_payment_canceled p.id (
    release_cart p (
      decline_renewal now p.renewal_id (
        write_payment now p.id
          (λ q. record q { status = canceled; payload = merge p.payload payload }) s)))

-- cancelTerminalGopayPayment: whether it changed anything, and the store.
unfoldable pub cancel_terminal_payment :
    ℕ → ℕ → Payload → Store → Result CommerceError (Bool × Store)
cancel_terminal_payment now id payload s = do
  p ← or_throw (find_payment id s) payment_not_found
  if is_settled p.status
      then ok (false, s)
      else if is_payable p.status
      then ok (true, cancel_payable now payload p s)
      else ok (false, s)

-- The payment's subscriptions that still run end at once.
unfoldable pub cancel_subscriptions : ℕ → ℕ → List Subscription → List Subscription
unfolding update_where
cancel_subscriptions now i =
    update_where (λ x. has_number x.payment_id i && is_refundable x.status)
      (λ x. record x { status = canceled_subscription; canceled_at = some now; ends_at = some now })

abbrev end_subscriptions : ℕ → ℕ → Store → Store
end_subscriptions now i s = record s { subscriptions = cancel_subscriptions now i s.subscriptions }

-- The writes of a first refund.
unfoldable pub refund_paid : ℕ → Payload → Payment → Store → Store
refund_paid now payload p s = log p.user_id gopay_payment_refunded p.id (
    end_subscriptions now p.id (
      write_payment now p.id
        (λ q. record q { status = refunded; payload = merge p.payload payload }) s))

-- recordGopayRefund: the deactivation job that must run, and the store.
unfoldable pub record_refund : ℕ → ℕ → Payload → Store → Result CommerceError (Job × Store)
record_refund now id payload s = do
  p ← or_throw (find_payment id s) payment_not_found
  if is_refunded p.status
      then enqueue_deactivation now p.user_id (gopay_refund p.id) s
      else if is_paid p.status
      then enqueue_deactivation now p.user_id (gopay_refund p.id) (refund_paid now payload p s)
      else throws gopay_refund_without_paid_payment
