-- ===== src/Commerce/Settle.antt =====
-- finalizePaidPayment of src/lib/commerce/payment.ts, first half: the guards on the cart, analysis,
-- offer and trial, and the writes that settle the payment, the cart and the analysis.
use spottex_test.Common.{
  ℕ, Bool, true, false, ◌&&◌, ◌||◌, not, Option, none, some, List, [], ◌∷◌, ◌==◌, ltb,
  if◌then◌else◌, is_some, row, find_first, update_where, Result, ok, throws,
}
use spottex_test.Jobs.Model.{energy_analysis, has_key, job_key_eq}
use spottex_test.Commerce.Model.{
  RunKind, base, pro, paid_cart, paid, accepted, queued, CartItem, Cart, Payload, Payment,
  Subscription, Offer, Run,
}
use spottex_test.Commerce.Store.{
  Store, CommerceError, payment_cart_mismatch, payment_analysis_mismatch,
  payment_service_offer_mismatch, trial_already_used, job_key_taken, pro_analysis_paid_and_queued,
  in_checkout, is_subscription, is_offered, is_draft, items_total, merge, has_free_access,
  find_cart, write_payment, write_cart, log, upsert_job,
}

abbrev is_pro : RunKind → Bool
is_pro base = false
is_pro pro = true

-- `payment.cart`.
abbrev pub joined_cart : Option ℕ → Store → Option Cart
joined_cart none s = none
joined_cart (some i) s = find_cart i s

abbrev pub cart_of : Payment → Store → Option Cart
cart_of p s = joined_cart p.cart_id s

-- `freeAccessPayment ? 0 : immutableTotal`.
unfoldable pub expected_total : Payment → Cart → ℕ
unfolding items_total
expected_total p c = if has_free_access p.payload then 0 else items_total c.items

-- The guard on the cart: still in checkout, and the three totals agree.
unfoldable pub check_cart : Payment → Cart → Result CommerceError Cart
check_cart p c =
    if in_checkout c.status
      && expected_total p c == p.amount_minor
      && c.total_minor == p.amount_minor
    then ok c
    else throws payment_cart_mismatch

abbrev run_matches : Payment → Run → Bool
run_matches p r =
    r.user_id == p.user_id
    && is_pro r.kind
    && is_draft r.status
    && (has_free_access p.payload || r.pro_price_minor == p.amount_minor)

-- The guard on the paid analysis.
unfoldable pub check_run : Payment → Store → Result CommerceError Store
check_run p s = elim p.analysis_run_id [
  | none ↦ ok s
  | some i ↦ elim (row (λ r. r.id) i s.runs) [
    | none ↦ throws payment_analysis_mismatch
    | some r ↦ if run_matches p r then ok s else throws payment_analysis_mismatch
  ]
]

abbrev offer_matches : ℕ → Payment → ℕ → Offer → Bool
offer_matches now p i o =
    o.id == i
    && o.user_id == p.user_id
    && is_offered o.status
    && ltb now o.valid_until
    && (has_free_access p.payload || o.final_price_minor == p.amount_minor)

-- The acceptance of the service offer.
unfoldable pub accept_offer : ℕ → Payment → Store → Result CommerceError Store
unfolding find_first update_where
accept_offer now p s = elim p.service_offer_id [
  | none ↦ ok s
  | some i ↦ elim (find_first (offer_matches now p i) s.offers) [
    | none ↦ throws payment_service_offer_mismatch
    | some o ↦ ok (record s {
      offers =
          update_where (offer_matches now p i)
            (λ o. record o { status = accepted; accepted_at = some now }) s.offers;
    })
  ]
]

-- `subscription.findFirst({ where: { userId, productId } })` finds a row.
unfoldable pub has_subscription : ℕ → ℕ → List Subscription → Bool
has_subscription user_id product_id [] = false
has_subscription user_id product_id (x ∷ xs) =
    (x.user_id == user_id && x.product_id == product_id) || has_subscription user_id product_id xs

-- The first loop over the items: a free trial only for a product that the user never had.
unfoldable pub check_trials : Payment → List CartItem → Store → Result CommerceError Store
unfolding has_subscription
check_trials p [] s = ok s
check_trials p (i ∷ is) s =
    let rest = check_trials p is s in
    if is_subscription i.product.type
      && p.amount_minor == 0
      && not (has_free_access p.payload)
      && has_subscription p.user_id i.product.id s.subscriptions
    then throws trial_already_used
    else rest

-- The payment and its cart are PAID; the new payload is merged into the old one.
unfoldable pub settle : ℕ → Payload → Payment → Cart → Store → Store
unfolding update_where
settle now payload p c s =
    write_cart c.id (λ c'. record c' { status = paid_cart })
      (write_payment now p.id
        (λ p'. record p' { status = paid; paid_at = some now; payload = merge p.payload payload })
        s)

-- The analysis is queued with its job; `scheduledJob.create` throws if the key is there.
unfoldable pub queue_analysis : ℕ → Payment → Store → Result CommerceError Store
unfolding find_first update_where upsert_job job_key_eq
queue_analysis now p s = elim p.analysis_run_id [
  | none ↦ ok s
  | some i ↦
      elim (find_first (λ r. r.id == i && r.user_id == p.user_id && is_draft r.status) s.runs) [
        | none ↦ throws payment_analysis_mismatch
        | some r ↦
            if is_some (find_first (has_key (energy_analysis i)) s.jobs)
            then throws job_key_taken
            else ok (
                log p.user_id pro_analysis_paid_and_queued i
                  (upsert_job (energy_analysis i) now (record s {
                    runs =
                        update_where (λ r. r.id == i && r.user_id == p.user_id && is_draft r.status)
                          (λ r. record r { status = queued }) s.runs;
                  })).1)
      ]
]
