-- ===== src/Commerce/Examples.antt =====
-- A small shop for the examples: one user who pays for a year of inverter control by card.
pub mod Settlement
pub mod Planning
pub mod Checkout
pub mod Reversal
pub mod Gateway
pub mod Yearly
use spottex_test.Common.{true, ℕ, ◌/◌, none, some, List, [], ◌∷◌, Result, ok, throws}
use spottex_test.Jobs.Model.{Job}
use spottex_test.Commerce.Model.{
  checkout, subscription, safe_nonneg, gopay, gopay_id, Payment, pending, mandate_first, Payload,
  Cart, CartItem, Product, Offer, offered, Mandate, active_mandate, Renewal, scheduled, active,
  paid_source, Subscription,
}
use spottex_test.Commerce.Store.{Store, CommerceError, empty_payload}
use spottex_test.Commerce.Finalize.{finalize_paid_payment}
use spottex_test.Commerce.Terminal.{cancel_terminal_payment, record_refund}

abbrev pub year_of : ℕ → ℕ
year_of t = t / 31536000000

abbrev pub control : Product
control = record {
  id = 5;
  type = subscription;
  billing_period_days = some 365;
  free_trial_days = safe_nonneg 14;
}

abbrev pub item : CartItem
item = record {
  product = control;
  quantity = 1;
  unit_price_minor = 49900;
  product_name = 7;
  analysis_run_id = none;
  service_offer_id = some 30;
}

abbrev pub cart : Cart
cart = record {
  id = 20;
  user_id = 1;
  status = checkout;
  currency = 203;
  total_minor = 49900;
  items = item ∷ [];
}

abbrev pub payload : Payload
payload = record empty_payload {
  recurring_consent = some (record {
    accepted = true;
    version = some 1;
    text_sha256 = some 9;
    consented_at = some 100;
    valid_until = none;
    max_amount_minor = 49900;
    renewal_period_days = 365;
    notice_days = 14;
  });
}

abbrev pub payment : Payment
payment = record {
  id = 10;
  user_id = 1;
  cart_id = some 20;
  provider = gopay;
  provider_payment_id = some (gopay_id 777);
  status = pending;
  amount_minor = 49900;
  currency = 203;
  payload = payload;
  charge_kind = mandate_first;
  mandate_id = none;
  service_offer_id = some 30;
  renewal_id = none;
  analysis_run_id = none;
  paid_at = none;
  created_at = 100;
  updated_at = 100;
}

abbrev offer : Offer
offer = record {
  id = 30;
  user_id = 1;
  energy_site_id = 40;
  status = offered;
  final_price_minor = 49900;
  valid_until = 5000;
  accepted_at = none;
  analysis_run_id = some 90;
  created_at = 50;
}

abbrev pub shop : Store
shop = record {
  carts = cart ∷ [];
  payments = payment ∷ [];
  subscriptions = [];
  mandates = [];
  renewals = [];
  offers = offer ∷ [];
  runs = [];
  invoices = [];
  counters = [];
  jobs = [];
  outbox = [];
  audit = [];
  next_id = 100;
}

-- The same shop under free access.
abbrev pub free_payment : Payment
free_payment = record payment {
  amount_minor = 0;
  payload = record payload { free_access = some true };
}

abbrev pub free_shop : Store
free_shop = record shop {
  payments = free_payment ∷ [];
  carts = record cart { total_minor = 0 } ∷ [];
}

abbrev pub store_of : Result CommerceError Store → Store
store_of (ok s) = s
store_of (throws e) = shop

abbrev pub second_of {ℓ} : {A : Type ℓ} → Result CommerceError (A × Store) → Store
second_of (ok (a, s)) = s
second_of (throws e) = shop

-- A renewal of a mandate of this user, whose notice is due.
abbrev pub mandate : Mandate
mandate = record {
  id = 50;
  user_id = 1;
  provider = gopay;
  parent_payment_id = gopay_id 777;
  status = active_mandate;
  currency = 203;
  max_amount_minor = 49900;
  renewal_period_days = 365;
  notice_days = 14;
  consent_version = 1;
  consent_text_sha256 = 9;
  consented_at = 100;
  valid_until = none;
  last_used_at = none;
  revoked_at = none;
}

abbrev pub renewal : Renewal
renewal = record {
  id = 60;
  user_id = 1;
  mandate_id = 50;
  subscription_id = 70;
  product = control;
  product_name = 7;
  energy_site_id = some 40;
  status = scheduled;
  amount_minor = 49900;
  currency = 203;
  notice_at = 1000;
  scheduled_at = 2000;
  notice_sent_at = none;
  attempt_count = 0;
  next_attempt_at = none;
  completed_at = none;
  last_error = none;
}

abbrev pub yearly_shop : Store
yearly_shop = record shop { mandates = mandate ∷ []; renewals = renewal ∷ [] }
