-- ===== src/Commerce/Grant.antt =====
-- finalizePaidPayment of src/lib/commerce/payment.ts, second half: the mandate, the subscriptions,
-- the renewal and the invoice that a settled payment brings.
use spottex_test.Common.{
  ℕ, suc, ◌+◌, ◌*◌, Bool, true, false, ◌&&◌, ◌||◌, not, Option, none, some, List, [], ◌∷◌, ◌++◌,
  ◌==◌, ltb, leb, if◌then◌else◌, row, find_first, update_where, or_default, or_else, or_throw,
  Result, ok, throws, ◌>>=◌, is_some,
}
use spottex_test.Commerce.Policy.{
  day_ms, recurring_max_amount_minor, recurring_notice_days, product_free_trial_days,
}
use spottex_test.Commerce.Model.{
  active, trial, active_mandate, renewed, paid_source, manual_source, CartItem, Cart, Consent,
  Payment, Subscription, Mandate, Renewal, InvoiceItem, Invoice, InvoiceCounter, ProviderId,
  local_id,
}
use spottex_test.Commerce.Store.{
  Store, CommerceError, gopay_mandate_without_parent_payment, gopay_mandate_without_consent,
  gopay_active_mandate_already_exists, is_subscription, is_card_provider, is_mock, provider_eq,
  is_live, is_active_mandate, is_usable_mandate, is_charge_pending, is_chargeable, is_mandate_first,
  provider_id_eq, ends_after, has_free_access, write_payment,
}

-- `payment.providerPaymentId ?? (payment.provider === "MOCK" ? payment.id : null)`.
abbrev parent_of : Payment → Option ProviderId
parent_of p = elim p.provider_payment_id [
  | some i ↦ some i
  | none ↦ if is_mock p.provider then some (local_id p.id) else none
]

-- `Number(value) || fallback`.
abbrev or_fallback : ℕ → ℕ → ℕ
or_fallback n fallback = if n == 0 then fallback else n

-- The checked consent: accepted, with its version and digest.
abbrev checked_consent : Option Consent → Result CommerceError (Consent × ℕ × ℕ)
checked_consent none = throws gopay_mandate_without_consent
checked_consent (some c) = elim c.version [
  | none ↦ throws gopay_mandate_without_consent
  | some v ↦ elim c.text_sha256 [
    | none ↦ throws gopay_mandate_without_consent
    | some d ↦ if c.accepted then ok (c, v, d) else throws gopay_mandate_without_consent
  ]
]

abbrev new_mandate : ℕ → ℕ → Payment → ProviderId → Consent → ℕ → ℕ → Mandate
new_mandate now id p parent c version digest = record {
  id = id;
  user_id = p.user_id;
  provider = p.provider;
  parent_payment_id = parent;
  status = active_mandate;
  currency = p.currency;
  max_amount_minor = or_fallback c.max_amount_minor recurring_max_amount_minor;
  renewal_period_days = or_fallback c.renewal_period_days 365;
  notice_days = or_fallback c.notice_days recurring_notice_days;
  consent_version = version;
  consent_text_sha256 = digest;
  consented_at = or_default c.consented_at p.created_at;
  valid_until = c.valid_until;
  last_used_at = some now;
  revoked_at = none;
}

abbrev usable_mandate_of : Payment → Mandate → Bool
usable_mandate_of p m =
    m.user_id == p.user_id && provider_eq m.provider p.provider && is_usable_mandate m.status

-- `existingMandate ?? create`, and the link from the payment. A mandate of another first payment is
-- an error.
abbrev link_mandate :
    ℕ → Payment → ProviderId → (Consent × ℕ × ℕ) → Store → Result CommerceError (Option ℕ × Store)
link_mandate now p parent (c, version, digest) s =
    elim (find_first (usable_mandate_of p) s.mandates) [
      | some m ↦
          if provider_id_eq m.parent_payment_id parent
          then ok (some m.id, write_payment now p.id (λ p'. record p' { mandate_id = some m.id }) s)
          else throws gopay_active_mandate_already_exists
      | none ↦ ok (
        some s.next_id,
        write_payment now p.id (λ p'. record p' { mandate_id = some s.next_id })
            (record s {
              mandates = s.mandates ++ new_mandate now s.next_id p parent c version digest ∷ [];
              next_id = suc s.next_id;
            }),
      )
    ]

-- The mandate of a first recurring payment; otherwise the payment's own.
unfoldable pub grant_mandate : ℕ → Payment → Store → Result CommerceError (Option ℕ × Store)
unfolding find_first update_where
grant_mandate now p s =
    if is_card_provider p.provider && is_mandate_first p.charge_kind
    then (do
      parent ← or_throw (parent_of p) gopay_mandate_without_parent_payment
      consent ← checked_consent p.payload.recurring_consent
      link_mandate now p parent consent s)
    else ok (p.mandate_id, s)

-- Whether the first end sorts before the second under `orderBy: { endsAt: "desc" }`, where no end
-- comes first.
unfoldable pub ends_later : Option ℕ → Option ℕ → Bool
ends_later none e = true
ends_later (some a) none = false
ends_later (some a) (some b) = leb b a

abbrev pub running_for : ℕ → ℕ → ℕ → Subscription → Bool
running_for now user_id product_id x =
    x.user_id == user_id
    && x.product_id == product_id
    && is_live x.status
    && ends_after now x.ends_at

-- The running subscription that ends last.
unfoldable pub latest_running : ℕ → ℕ → ℕ → List Subscription → Option Subscription
unfolding ends_later
latest_running now user_id product_id [] = none
latest_running now user_id product_id (x ∷ xs) =
    let rest = latest_running now user_id product_id xs in
    if running_for now user_id product_id x
    then elim rest [
      | none ↦ some x
      | some y ↦ if ends_later x.ends_at y.ends_at then some x else some y
    ]
    else rest

-- `active?.endsAt && active.endsAt > startsAt ? active.endsAt : startsAt`.
unfoldable pub base_start : ℕ → Option Subscription → ℕ
base_start now none = now
base_start now (some x) = elim x.ends_at [ none ↦ now | some e ↦ if ltb now e then e else now ]

abbrev pub period_days : Payment → CartItem → ℕ
period_days p i =
    if p.amount_minor == 0
    then or_fallback (product_free_trial_days i.product.free_trial_days) 30
    else or_fallback (or_default i.product.billing_period_days 0) 30

abbrev offer_site : Option ℕ → Store → Option ℕ
offer_site none s = none
offer_site (some i) s = elim (row (λ o. o.id) i s.offers) [
  | none ↦ none
  | some o ↦ some o.energy_site_id
]

abbrev renewal_site : Option ℕ → Store → Option ℕ
renewal_site none s = none
renewal_site (some i) s = elim (row (λ r. r.id) i s.renewals) [
  | none ↦ none
  | some r ↦ r.energy_site_id
]

-- `recurringRenewal?.subscription.energySiteId ?? serviceOffer?.energySiteId ?? null`.
unfoldable pub site_of : Payment → Store → Option ℕ
unfolding find_first
site_of p s = or_else (renewal_site p.renewal_id s) (offer_site p.service_offer_id s)

unfoldable pub new_subscription : ℕ → Payment → Option ℕ → CartItem → Store → Subscription
unfolding latest_running base_start site_of product_free_trial_days
new_subscription now p mandate i s =
    let start = base_start now (latest_running now p.user_id i.product.id s.subscriptions) in
    record {
      id = s.next_id;
      user_id = p.user_id;
      product_id = i.product.id;
      payment_id = some p.id;
      status = if has_free_access p.payload || ltb 0 p.amount_minor then active else trial;
      source = if p.amount_minor == 0 then manual_source else paid_source;
      starts_at = start;
      ends_at =
          if has_free_access p.payload
          then none
          else some (start + period_days p i * i.quantity * day_ms);
      canceled_at = none;
      mandate_id = mandate;
      energy_site_id = site_of p s;
    }

-- The second loop over the items: a subscription for each subscription item.
unfoldable pub grant_subscriptions : ℕ → Payment → Option ℕ → List CartItem → Store → Store
unfolding new_subscription
grant_subscriptions now p mandate [] s = s
grant_subscriptions now p mandate (i ∷ is) s = grant_subscriptions now p mandate is (
    if is_subscription i.product.type
    then record s {
      subscriptions = s.subscriptions ++ new_subscription now p mandate i s ∷ [];
      next_id = suc s.next_id;
    }
    else s)

abbrev completes : ℕ → Renewal → Bool
completes i r = r.id == i && (is_charge_pending r.status || is_chargeable r.status)

-- The renewal that the payment was for, and the last use of its mandate.
unfoldable pub complete_renewal : ℕ → Payment → Option ℕ → Store → Store
unfolding update_where
complete_renewal now p mandate s = elim p.renewal_id [
  | none ↦ s
  | some i ↦ touch_mandate mandate (record s {
    renewals =
        update_where (completes i)
          (λ r. record r {
            status = renewed;
            completed_at = some now;
            next_attempt_at = none;
            last_error = none;
          })
          s.renewals;
  })
]
  where
    touch_mandate : Option ℕ → Store → Store
    touch_mandate none s = s
    touch_mandate (some m) s = record s {
      mandates =
          update_where (λ x. x.id == m && is_active_mandate x.status)
            (λ x. record x { last_used_at = some now }) s.mandates;
    }

-- `payment.invoices[0] ?? null`.
unfoldable pub invoice_of : Payment → List Invoice → Option Invoice
unfolding find_first
invoice_of p is = find_first (λ i. i.payment_id == p.id) is

-- `invoiceCounter.upsert`: the year's next sequence.
unfoldable pub next_sequence : ℕ → List InvoiceCounter → ℕ
next_sequence year [] = 1
next_sequence year (c ∷ cs) = if c.year == year then c.sequence + 1 else next_sequence year cs

unfoldable pub bump_counter : ℕ → List InvoiceCounter → List InvoiceCounter
bump_counter year [] = record { year = year; sequence = 1 } ∷ []
bump_counter year (c ∷ cs) =
    if c.year == year then record c { sequence = c.sequence + 1 } ∷ cs else c ∷ bump_counter year cs

abbrev invoice_item : CartItem → InvoiceItem
invoice_item i = record {
  description = i.product_name;
  quantity = i.quantity;
  unit_price_minor = i.unit_price_minor;
  total_minor = i.unit_price_minor * i.quantity;
}

unfoldable pub invoice_items : List CartItem → List InvoiceItem
invoice_items [] = []
invoice_items (i ∷ is) = invoice_item i ∷ invoice_items is

-- `invoice.create`. `year_of` is the year in Prague.
abbrev pub new_invoice : (ℕ → ℕ) → ℕ → Payment → Cart → Store → Invoice
new_invoice year_of now p c s = record {
  id = s.next_id;
  year = year_of now;
  sequence = next_sequence (year_of now) s.counters;
  user_id = p.user_id;
  payment_id = p.id;
  subtotal_minor = p.amount_minor;
  total_minor = p.amount_minor;
  issued_at = now;
  paid_at = now;
  items = invoice_items c.items;
}

-- The invoice of a charged payment, unless it has one.
unfoldable pub issue_invoice : (ℕ → ℕ) → ℕ → Payment → Cart → Store → Store
unfolding invoice_of next_sequence bump_counter invoice_items
issue_invoice year_of now p c s =
    if ltb 0 p.amount_minor && not (is_some (invoice_of p s.invoices))
    then record s {
      counters = bump_counter (year_of now) s.counters;
      invoices = s.invoices ++ new_invoice year_of now p c s ∷ [];
      next_id = suc s.next_id;
    }
    else s
