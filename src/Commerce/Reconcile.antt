-- ===== src/Commerce/Reconcile.antt =====
-- reconcileGopay of src/lib/commerce/payment.ts. The payment is read before the request, and what is
-- written after it meets the store of that time.
use spottex_test.Common.{
  ℕ, Bool, true, false, ◌&&◌, not, Option, none, some, ◌==◌, ltb, if◌then◌else◌, find_first,
  update_where, count_where, or_else, is_some, ok, throws,
}
use spottex_test.Commerce.Model.{
  Payment, Payload, ProviderId, ProviderState, gopay_paid, gopay_canceled, gopay_timeouted,
  gopay_refunded, gopay_partially_refunded,
}
use spottex_test.Commerce.Store.{
  gopay_payment_not_linked, gopay_payment_mismatch_error, gopay_request_failed,
  gopay_payment_mismatch, gopay_payment_partially_refunded, is_gopay, is_paid, is_payable,
  is_settled, provider_id_eq, merge, empty_payload, find_payment, write_payment, log,
}
use spottex_test.Commerce.Exec.{Exec, pure, committed, commits, write, ◌>>=◌, ◌>>◌}
use spottex_test.Commerce.Gateway.{Config, GopayAnswer, AskStatus, safe_gateway_url, answer_matches}
use spottex_test.Commerce.Finalize.{finalize_paid_payment}
use spottex_test.Commerce.Terminal.{cancel_terminal_payment, record_refund}
use spottex_test.Energy.Deactivation.{process_jobs}

-- `{ ...previousPayload, ...data, state, gatewayUrl? }`.
abbrev pub merged_payload : Config → Payment → GopayAnswer → ProviderState → Payload
merged_payload cfg p a state =
    merge p.payload (record empty_payload {
      state = some state;
      gateway_url = safe_gateway_url cfg a.gateway_url;
    })

abbrev linkable : ℕ → Payment → Bool
linkable i p =
    p.id == i && is_gopay p.provider && not (is_some p.provider_payment_id) && is_payable p.status

abbrev linked_to : Option Payment → ProviderId → Bool
linked_to none i = false
linked_to (some p) i = elim p.provider_payment_id [ none ↦ false | some k ↦ provider_id_eq k i ]

-- The link of a payment that had none when it was read; if another process linked it since, to the
-- same provider payment.
unfoldable pub link_payment : ℕ → Payment → ProviderId → Exec (Unit {0})
unfolding find_first update_where count_where
link_payment now p i s =
    if is_some p.provider_payment_id
    then (ok tt, s)
    else if ltb 0 (count_where (linkable p.id) s.payments)
    then (
      ok tt,
      record s {
        payments =
            update_where (linkable p.id)
              (λ q. record q { provider_payment_id = some i; updated_at = now }) s.payments;
      },
    )
    else if linked_to (find_payment p.id s) i
    then (ok tt, s)
    else (throws gopay_payment_mismatch_error, s)

-- finalizePaidPayment as an action of its own transaction.
unfoldable pub finalizes : Config → ℕ → ℕ → Payload → Exec (Unit {0})
finalizes cfg now i payload = commits (finalize_paid_payment cfg.year_of now i payload)

-- A payment that was not settled when it was read is finalized first.
unfoldable pub settle_first : Config → ℕ → Payment → Payload → Exec (Unit {0})
settle_first cfg now p payload =
    if is_settled p.status then pure tt else finalizes cfg now p.id payload

-- The refund, and the immediate attempt to run its deactivation job, whose errors are swallowed.
unfoldable pub refunds_now : Config → ℕ → ℕ → Payment → Payload → Exec (Unit {0})
refunds_now cfg now worker p payload = do
  settle_first cfg now p payload
  j ← committed (record_refund now p.id payload)
  write (λ s. (process_jobs cfg.directory cfg.deactivate now worker (λ k. k == j.id) 1 s).1)

abbrev was_partially_refunded : Payload → Bool
was_partially_refunded p = elim p.state [ some gopay_partially_refunded ↦ true | _ ↦ false ]

-- Any other state is stored; a partial refund settles the payment first and is logged once.
unfoldable pub stores_state : ℕ → Payment → Payload → Exec (Unit {0})
unfolding update_where
stores_state now p payload = write (write_payment now p.id (λ q. record q { payload = payload }))

unfoldable pub partial_refund : Config → ℕ → Payment → Payload → Exec (Unit {0})
partial_refund cfg now p payload = do
  settle_first cfg now p payload
  stores_state now p payload
  (if was_partially_refunded p.payload
      then pure tt
      else write (log p.user_id gopay_payment_partially_refunded p.id))

-- What is done for the state that GoPay reports.
unfoldable pub dispatch : Config → ℕ → ℕ → Payment → Payload → ProviderState → Exec (Unit {0})
dispatch cfg now worker p payload gopay_paid = finalizes cfg now p.id payload
dispatch cfg now worker p payload gopay_canceled = do
  _ ← committed (cancel_terminal_payment now p.id payload)
  pure tt
dispatch cfg now worker p payload gopay_timeouted = do
  _ ← committed (cancel_terminal_payment now p.id payload)
  pure tt
dispatch cfg now worker p payload gopay_refunded = refunds_now cfg now worker p payload
dispatch cfg now worker p payload gopay_partially_refunded = partial_refund cfg now p payload
dispatch cfg now worker p payload _ = stores_state now p payload

abbrev pub is_refund : ProviderState → Bool
is_refund gopay_refunded = true
is_refund _ = false

abbrev pub touched : ℕ → Payload → Payment → Payment
touched now payload q = record q {
  payload = record payload { recovery_last_attempt_at = some now; recovery_verified = some true };
  updated_at = now;
}

abbrev pub still_paid : ℕ → Payment → Bool
still_paid i q = q.id == i && is_paid q.status

-- The touch of a payment that was PAID when it was read, if it still is.
unfoldable pub touch_paid : ℕ → Payment → Payload → ProviderState → Exec (Unit {0})
unfolding update_where
touch_paid now p payload state s =
    if is_paid p.status && not (is_refund state)
    then (
      ok tt,
      record s { payments = update_where (still_paid p.id) (touched now payload) s.payments },
    )
    else (ok tt, s)

-- What follows an answer that is about this payment.
unfoldable pub apply_answer :
    Config → ℕ → ℕ → Payment → ProviderId → GopayAnswer → ProviderState → Exec ProviderState
apply_answer cfg now worker p i a state = do
  link_payment now p i
  dispatch cfg now worker p (merged_payload cfg p a state) state
  touch_paid now p (merged_payload cfg p a state) state
  pure state

unfoldable pub judge :
    Config → ℕ → ℕ → Payment → ProviderId → GopayAnswer → Option ProviderState → Exec ProviderState
judge cfg now worker p i a none s = (throws gopay_request_failed, s)
judge cfg now worker p i a (some state) s =
    if not a.http_ok
    then (throws gopay_request_failed, s)
    else if answer_matches cfg p i a
    then apply_answer cfg now worker p i a state s
    else (throws gopay_payment_mismatch_error, log p.user_id gopay_payment_mismatch p.id s)

-- The checks on the answer.
unfoldable pub check_answer :
    Config → ℕ → ℕ → Payment → ProviderId → Option GopayAnswer → Exec ProviderState
check_answer cfg now worker p i none s = (throws gopay_request_failed, s)
check_answer cfg now worker p i (some a) s = judge cfg now worker p i a a.state s

-- `providerPaymentId && notified && providerPaymentId !== notified`.
abbrev pub contradicts : Option ProviderId → Option ProviderId → Bool
contradicts (some a) (some b) = not (provider_id_eq a b)
contradicts _ _ = false

unfoldable pub ask_and_apply :
    Config → ℕ → ℕ → AskStatus → Payment → Option ProviderId → Exec ProviderState
ask_and_apply cfg now worker ask p none s = (throws gopay_payment_not_linked, s)
ask_and_apply cfg now worker ask p (some i) s =
    let (a, s') = ask i s in check_answer cfg now worker p i a s'

-- reconcileGopay.
unfoldable pub reconcile_gopay :
    Config → ℕ → ℕ → AskStatus → ℕ → Option ProviderId → Exec ProviderState
reconcile_gopay cfg now worker ask id notified s = elim (find_payment id s) [
  | none ↦ (throws gopay_payment_not_linked, s)
  | some p ↦
      if not (is_gopay p.provider)
      then (throws gopay_payment_not_linked, s)
      else if contradicts p.provider_payment_id notified
      then (throws gopay_payment_mismatch_error, s)
      else ask_and_apply cfg now worker ask p (or_else p.provider_payment_id notified) s
]
