-- ===== src/Commerce/Store.antt =====
-- The tables of the commerce code as one store, and the tests on rows that its queries make.
use spottex_test.Common.{
  ℕ, suc, ◌+◌, ◌*◌, Bool, true, false, ◌||◌, Option, none, some, List, [], ◌∷◌, ◌++◌, ◌==◌, ltb,
  if◌then◌else◌, row, update_where, or_else, find_first, row-update_where, ◌≡◌, refl, ◌∙◌,
  if◌then◌else◌, Result, ok, throws,
}
use spottex_test.Jobs.Model.{
  Job, JobKey, Mail, new_mail, new_job, has_key, MailKey, has_mail, job_key_eq, Event, deactivation,
}
use spottex_test.Commerce.Model.{
  CartStatus, open_cart, checkout, ProductType, subscription, one_time, Provider, mock, gopay,
  bank_transfer, manual, PaymentStatus, created, pending, paid, refunded, SubscriptionStatus,
  active, trial, past_due, MandateStatus, active_mandate, pending_mandate, RenewalStatus, scheduled,
  notice_sent, charge_pending, retry, OfferStatus, offered, RunStatus, draft_run, CartItem, Cart,
  Payload, Payment, Subscription, Mandate, Renewal, Offer, Run, Invoice, InvoiceCounter, ChargeKind,
  mandate_first, ProviderId, gopay_id, local_id, mock_renewal_id,
}

pub data Action : Type 0 where
  pro_analysis_paid_and_queued payment_paid gopay_payment_canceled gopay_payment_refunded : Action
  gopay_payment_mismatch gopay_payment_partially_refunded gopay_creation_review_required : Action
  recurring_mandate_revoked promo_activated inverter_deactivation_skipped_entitled : Action

pub record Audit : Type 0 where
  pub actor : ℕ
  pub action : Action
  pub entity : ℕ

-- A new row takes its id from `next_id`.
pub record Store : Type 0 where
  pub carts : List Cart
  pub payments : List Payment
  pub subscriptions : List Subscription
  pub mandates : List Mandate
  pub renewals : List Renewal
  pub offers : List Offer
  pub runs : List Run
  pub invoices : List Invoice
  pub counters : List InvoiceCounter
  pub jobs : List Job
  pub outbox : List Mail
  pub audit : List Audit
  pub next_id : ℕ

-- The messages of the errors that the code throws.
pub data CommerceError : Type 0 where
  payment_not_found payment_without_cart payment_cart_mismatch : CommerceError
  payment_analysis_mismatch payment_service_offer_mismatch trial_already_used job_key_taken :
      CommerceError
  gopay_mandate_without_parent_payment gopay_mandate_without_consent : CommerceError
  gopay_active_mandate_already_exists gopay_refund_without_paid_payment : CommerceError
  gopay_payment_not_linked gopay_payment_mismatch_error gopay_request_failed : CommerceError
  cart_not_checkoutable cart_checkout_in_progress payment_provider_unconfigured : CommerceError
  cart_multiple_analysis_runs cart_multiple_service_offers service_offer_required : CommerceError
  cart_not_open invalid_deactivation_user invalid_promo_duration : CommerceError
  active_subscription_exists recurring_mandate_not_found invalid_renewal_amount : CommerceError

abbrev pub is_open : CartStatus → Bool
is_open open_cart = true
is_open _ = false

abbrev pub in_checkout : CartStatus → Bool
in_checkout open_cart = false
in_checkout checkout = true
in_checkout _ = false

abbrev pub is_subscription : ProductType → Bool
is_subscription subscription = true
is_subscription one_time = false

-- `["GOPAY", "MOCK"].includes(provider)`.
abbrev pub is_card_provider : Provider → Bool
is_card_provider mock = true
is_card_provider gopay = true
is_card_provider _ = false

abbrev pub is_mock : Provider → Bool
is_mock mock = true
is_mock _ = false

abbrev pub is_gopay : Provider → Bool
is_gopay mock = false
is_gopay gopay = true
is_gopay _ = false

abbrev pub provider_eq : Provider → Provider → Bool
provider_eq mock mock = true
provider_eq gopay gopay = true
provider_eq bank_transfer bank_transfer = true
provider_eq manual manual = true
provider_eq _ _ = false

abbrev pub is_paid : PaymentStatus → Bool
is_paid created = false
is_paid pending = false
is_paid paid = true
is_paid _ = false

-- `status: { in: ["CREATED", "PENDING"] }`.
abbrev pub is_payable : PaymentStatus → Bool
is_payable created = true
is_payable pending = true
is_payable _ = false

abbrev pub is_pending : PaymentStatus → Bool
is_pending created = false
is_pending pending = true
is_pending _ = false

abbrev pub is_refunded : PaymentStatus → Bool
is_refunded refunded = true
is_refunded created = false
is_refunded _ = false

-- `["PAID", "REFUNDED"].includes(status)`.
abbrev pub is_settled : PaymentStatus → Bool
is_settled s = is_paid s || is_refunded s

-- `status: { in: ["ACTIVE", "TRIAL"] }`.
abbrev pub is_live : SubscriptionStatus → Bool
is_live active = true
is_live trial = true
is_live _ = false

-- `status: { in: ["ACTIVE", "TRIAL", "PAST_DUE"] }`.
abbrev pub is_refundable : SubscriptionStatus → Bool
is_refundable past_due = true
is_refundable s = is_live s

abbrev pub is_active_mandate : MandateStatus → Bool
is_active_mandate active_mandate = true
is_active_mandate _ = false

-- `status: { in: ["PENDING", "ACTIVE"] }`.
abbrev pub is_usable_mandate : MandateStatus → Bool
is_usable_mandate pending_mandate = true
is_usable_mandate s = is_active_mandate s

abbrev pub is_charge_pending : RenewalStatus → Bool
is_charge_pending charge_pending = true
is_charge_pending _ = false

-- `["NOTICE_SENT", "RETRY"].includes(status)`.
abbrev pub is_chargeable : RenewalStatus → Bool
is_chargeable notice_sent = true
is_chargeable retry = true
is_chargeable _ = false

abbrev pub is_scheduled : RenewalStatus → Bool
is_scheduled scheduled = true
is_scheduled _ = false

abbrev pub is_offered : OfferStatus → Bool
is_offered offered = true
is_offered _ = false

abbrev pub is_draft : RunStatus → Bool
is_draft draft_run = true
is_draft _ = false

abbrev pub is_mandate_first : ChargeKind → Bool
is_mandate_first mandate_first = true
is_mandate_first _ = false

abbrev pub provider_id_eq : ProviderId → ProviderId → Bool
provider_id_eq (gopay_id a) (gopay_id b) = a == b
provider_id_eq (local_id a) (local_id b) = a == b
provider_id_eq (mock_renewal_id a) (mock_renewal_id b) = a == b
provider_id_eq _ _ = false

-- `OR: [{ endsAt: null }, { endsAt: { gt: at } }]`.
abbrev pub ends_after : ℕ → Option ℕ → Bool
ends_after at none = true
ends_after at (some e) = ltb at e

-- `items.reduce((sum, item) => sum + item.unitPriceMinor * item.quantity, 0)`.
unfoldable pub items_total : List CartItem → ℕ
items_total [] = 0
items_total (i ∷ is) = i.unit_price_minor * i.quantity + items_total is

-- `{ ...previous, ...next }`.
abbrev pub merge : Payload → Payload → Payload
merge p q = record {
  free_access = or_else q.free_access p.free_access;
  state = or_else q.state p.state;
  gateway_url = or_else q.gateway_url p.gateway_url;
  recurring_consent = or_else q.recurring_consent p.recurring_consent;
  recovery_last_attempt_at = or_else q.recovery_last_attempt_at p.recovery_last_attempt_at;
  recovery_verified = or_else q.recovery_verified p.recovery_verified;
}

abbrev pub empty_payload : Payload
empty_payload = record {
  free_access = none;
  state = none;
  gateway_url = none;
  recurring_consent = none;
  recovery_last_attempt_at = none;
  recovery_verified = none;
}

-- `jsonObject(payload).freeAccess === true`.
abbrev pub has_free_access : Payload → Bool
has_free_access p = elim p.free_access [ some true ↦ true | _ ↦ false ]

abbrev pub find_payment : ℕ → Store → Option Payment
find_payment i s = row (λ p. p.id) i s.payments

abbrev pub find_cart : ℕ → Store → Option Cart
find_cart i s = row (λ c. c.id) i s.carts

-- `payment.update` by id; Prisma stamps `updatedAt`.
abbrev pub write_payment : ℕ → ℕ → (Payment → Payment) → Store → Store
write_payment now i f s = record s {
  payments = update_where (λ p. p.id == i) (λ p. record (f p) { updated_at = now }) s.payments;
}

pub find-write_payment :
    (now i j : ℕ) (f : Payment → Payment) (s : Store) {q : Payment}
    → ((p : Payment) → (f p).id ≡ p.id)
    → find_payment i s ≡ some q
    → find_payment i (write_payment now j f s)
      ≡ some (if q.id == j then record (f q) { updated_at = now } else q)
find-write_payment now i j f s {q} keep h =
    row-update_where (λ p. p.id) (λ p. p.id == j) (λ p. record (f p) { updated_at = now }) keep i
      s.payments
    ∙ rw h refl

abbrev pub write_cart : ℕ → (Cart → Cart) → Store → Store
write_cart i f s = record s { carts = update_where (λ c. c.id == i) f s.carts }

abbrev pub log : ℕ → Action → ℕ → Store → Store
log actor action entity s = record s {
  audit = s.audit ++ record { actor = actor; action = action; entity = entity } ∷ [];
}

pub find-write_cart :
    (i j : ℕ) (f : Cart → Cart) (s : Store) {c : Cart}
    → ((c : Cart) → (f c).id ≡ c.id)
    → find_cart i s ≡ some c
    → find_cart i (write_cart j f s) ≡ some (if c.id == j then f c else c)
find-write_cart i j f s {c} keep h =
    row-update_where (λ c. c.id) (λ c. c.id == j) f keep i s.carts ∙ rw h refl

-- queueEmail of src/lib/email.ts, and `tx.emailOutbox.upsert`: a key that is there is left alone.
unfoldable pub queue_mail : ℕ → MailKey → ℕ → Store → Store
unfolding has_mail
queue_mail now key to_user s = if has_mail key s.outbox then s else record s {
  outbox = s.outbox ++ new_mail s.next_id key to_user now ∷ [];
  next_id = suc s.next_id;
}

-- `scheduledJob.upsert({ where: { idempotencyKey }, update: {}, create })`, and the row it returns.
unfoldable pub upsert_job : JobKey → ℕ → Store → Job × Store
unfolding find_first job_key_eq
upsert_job key run_at s = elim (find_first (has_key key) s.jobs) [
  | some j ↦ (j, s)
  | none ↦ (
    new_job s.next_id key run_at,
    record s { jobs = s.jobs ++ new_job s.next_id key run_at ∷ []; next_id = suc s.next_id },
  )
]

-- enqueueInverterDeactivationJob of src/lib/energy/deactivation-jobs.ts. The callers' reasons and
-- keys are not blank, so the user is the one check that can fail.
unfoldable pub enqueue_deactivation : ℕ → ℕ → Event → Store → Result CommerceError (Job × Store)
enqueue_deactivation now user_id event s =
    if user_id == 0
    then throws invalid_deactivation_user
    else ok (upsert_job (deactivation user_id event) now s)
