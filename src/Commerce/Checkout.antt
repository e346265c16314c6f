-- ===== src/Commerce/Checkout.antt =====
-- createCheckout of src/lib/commerce/payment.ts: the transaction that claims a cart for a payment, and
-- what is done with the payment by its provider.
use spottex_test.Common.{
  ℕ, suc, Bool, true, false, ◌&&◌, ◌||◌, not, Option, none, some, List, [], ◌∷◌, ◌++◌, ◌==◌, ltb,
  if◌then◌else◌, find_first, find_last, find_many, update_where, length, has_number, Result, ok,
  throws,
}
use spottex_test.Commerce.Model.{
  Cart, CartItem, checkout, Payment, pending, Provider, mock, gopay, manual, Consent, one_off,
  mandate_first,
}
use spottex_test.Commerce.Store.{
  Store, CommerceError, cart_not_checkoutable, cart_checkout_in_progress, trial_already_used,
  payment_provider_unconfigured, cart_multiple_analysis_runs, cart_multiple_service_offers,
  service_offer_required, is_open, in_checkout, is_payable, is_mock, is_subscription,
  is_card_provider, items_total, empty_payload, write_cart,
}
use spottex_test.Commerce.Policy.{recurring_max_amount_minor, recurring_notice_days}
use spottex_test.Commerce.Settle.{has_subscription}

-- The environment of a checkout, the constants of the consent, and the date three years on.
pub record Shop : Type 0 where
  pub free_access : Bool
  pub gopay_configured : Bool
  pub production : Bool
  pub consent_version : ℕ
  pub consent_sha256 : ℕ
  pub three_years_on : ℕ → ℕ

-- recurringPaymentParameters: the consent.
unfoldable pub recurring_consent_of : Shop → ℕ → Consent
recurring_consent_of shop now = record {
  accepted = true;
  version = some shop.consent_version;
  text_sha256 = some shop.consent_sha256;
  consented_at = some now;
  valid_until = some (shop.three_years_on now);
  max_amount_minor = recurring_max_amount_minor;
  renewal_period_days = 365;
  notice_days = recurring_notice_days;
}

-- `new Set(…)` of the ids that the items name.
abbrev listed : Option ℕ → List ℕ → List ℕ
listed none ids = ids
listed (some i) ids = i ∷ find_many (λ j. not (j == i)) ids

unfoldable pub named_ids : (CartItem → Option ℕ) → List CartItem → List ℕ
unfolding find_many
named_ids f [] = []
named_ids f (i ∷ is) = listed (f i) (named_ids f is)

abbrev pub first_of : List ℕ → Option ℕ
first_of [] = none
first_of (i ∷ is) = some i

unfoldable pub sells_subscription : List CartItem → Bool
sells_subscription [] = false
sells_subscription (i ∷ is) = is_subscription i.product.type || sells_subscription is

-- `productId: { in: … }`: the user had one of the products.
unfoldable pub had_any : ℕ → List CartItem → Store → Bool
unfolding has_subscription
had_any user_id [] s = false
had_any user_id (i ∷ is) s =
    has_subscription user_id i.product.id s.subscriptions || had_any user_id is s

-- `freeAccess ? 0 : listedTotalMinor`.
abbrev pub charged_total : Shop → Cart → ℕ
charged_total shop c = if shop.free_access then 0 else items_total c.items

abbrev pub provider_for : Shop → ℕ → Provider
provider_for shop total =
    if total == 0 then manual else if shop.gopay_configured then gopay else mock

abbrev pub is_recurring : Shop → Bool → Cart → Bool
is_recurring shop consent c =
    is_card_provider (provider_for shop (charged_total shop c))
    && consent
    && sells_subscription c.items

abbrev pub checkout_payment : Shop → ℕ → Bool → Cart → ℕ → Payment
checkout_payment shop now consent c id = record {
  id = id;
  user_id = c.user_id;
  cart_id = some c.id;
  provider = provider_for shop (charged_total shop c);
  provider_payment_id = none;
  status = pending;
  amount_minor = charged_total shop c;
  currency = c.currency;
  payload = record empty_payload {
    free_access = some shop.free_access;
    recurring_consent =
        if is_recurring shop consent c then some (recurring_consent_of shop now) else none;
  };
  charge_kind = if is_recurring shop consent c then mandate_first else one_off;
  mandate_id = none;
  service_offer_id = first_of (named_ids (λ i. i.service_offer_id) c.items);
  renewal_id = none;
  analysis_run_id = first_of (named_ids (λ i. i.analysis_run_id) c.items);
  paid_at = none;
  created_at = now;
  updated_at = now;
}

abbrev max_safe_integer : ℕ
max_safe_integer = 9007199254740991

-- The checks on an open cart, in the order of the code; the writes before a check are rolled back.
unfoldable pub refusal : Shop → Cart → Store → Option CommerceError
unfolding had_any
refusal shop c s =
    if not (is_open c.status)
    then some cart_checkout_in_progress
    else if ltb max_safe_integer (items_total c.items)
    then some cart_not_checkoutable
    else if charged_total shop c == 0 && not shop.free_access && had_any c.user_id c.items s
    then some trial_already_used
    else if is_mock (provider_for shop (charged_total shop c)) && shop.production
    then some payment_provider_unconfigured
    else if ltb 1 (length (named_ids (λ i. i.analysis_run_id) c.items))
    then some cart_multiple_analysis_runs
    else if ltb 1 (length (named_ids (λ i. i.service_offer_id) c.items))
    then some cart_multiple_service_offers
    else if ltb 0 (charged_total shop c)
        && sells_subscription c.items
        && not (length (named_ids (λ i. i.service_offer_id) c.items) == 1)
    then some service_offer_required
    else none

-- The claim of the cart at its total, and the new payment.
unfoldable pub claim_cart : Shop → ℕ → Bool → Cart → Store → Payment × Store
unfolding update_where
claim_cart shop now consent c s =
    let p = checkout_payment shop now consent c s.next_id in
    (
      p,
      record (write_cart c.id
          (λ x. record x { status = checkout; total_minor = charged_total shop c }) s) {
            payments = s.payments ++ p ∷ [];
            next_id = suc s.next_id;
          },
    )

abbrev pub checkoutable : ℕ → ℕ → Cart → Bool
checkoutable user_id cart_id c =
    c.id == cart_id && c.user_id == user_id && (is_open c.status || in_checkout c.status)

abbrev pub payable_for : ℕ → Payment → Bool
payable_for cart_id p = has_number p.cart_id cart_id && is_payable p.status

abbrev is_empty : List CartItem → Bool
is_empty [] = true
is_empty (i ∷ is) = false

-- What the transaction of createCheckout returns: the cart, the payment, and whether it was there.
pub record Prepared : Type 0 where
  pub cart : Cart
  pub payment : Payment
  pub existing : Bool

unfoldable pub prepare_with :
    Shop → ℕ → Bool → Cart → Store → Result CommerceError (Prepared × Store)
unfolding refusal claim_cart find_last
prepare_with shop now consent c s = elim (find_last (payable_for c.id) s.payments) [
  | some p ↦ ok (record { cart = c; payment = p; existing = true }, s)
  | none ↦ elim (refusal shop c s) [
    | some e ↦ throws e
    | none ↦
        let (p, s') = claim_cart shop now consent c s in
        ok (record { cart = c; payment = p; existing = false }, s')
  ]
]

unfoldable pub prepare_checkout :
    Shop → ℕ → ℕ → ℕ → Bool → Store → Result CommerceError (Prepared × Store)
unfolding find_first
prepare_checkout shop now user_id cart_id consent s =
    elim (find_first (checkoutable user_id cart_id) s.carts) [
      | none ↦ throws cart_not_checkoutable
      | some c ↦
          if is_empty c.items
          then throws cart_not_checkoutable
          else prepare_with shop now consent c s
    ]
