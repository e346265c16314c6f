-- ===== src/Commerce/Entitlement.antt =====
-- src/lib/commerce/entitlement.ts and promo.ts: who may use the inverter control.
use spottex_test.Common.{
  ℕ, suc, ◌+◌, ◌*◌, Bool, false, ◌&&◌, ◌||◌, none, some, List, [], ◌∷◌, ◌++◌, ◌==◌, ltb, leb,
  if◌then◌else◌, find_first, Result, ok, throws, is_some,
}
use spottex_test.Commerce.Policy.{day_ms}
use spottex_test.Commerce.Model.{Subscription, trial, promo}
use spottex_test.Commerce.Store.{
  Store, CommerceError, invalid_promo_duration, active_subscription_exists, promo_activated,
  is_live, ends_after, log,
}

-- The users and products that the queries join: `user.status = ACTIVE`, and the product with the code
-- INVERTER_CONTROL and whether it is active.
pub record Directory : Type 0 where
  pub is_active_user : ℕ → Bool
  pub control_product : ℕ
  pub control_active : Bool

abbrev pub entitles : Directory → ℕ → ℕ → Subscription → Bool
entitles d now user_id x =
    x.user_id == user_id
    && d.is_active_user user_id
    && x.product_id == d.control_product
    && d.control_active
    && is_live x.status
    && leb x.starts_at now
    && ends_after now x.ends_at

-- hasInverterControlEntitlement, as whether a subscription is found.
unfoldable pub has_entitlement : Directory → ℕ → ℕ → List Subscription → Bool
has_entitlement d now user_id [] = false
has_entitlement d now user_id (x ∷ xs) =
    entitles d now user_id x || has_entitlement d now user_id xs

-- The subscription that stands against a promotion.
abbrev running_product : ℕ → ℕ → ℕ → Subscription → Bool
running_product now user_id product_id x =
    x.user_id == user_id
    && x.product_id == product_id
    && is_live x.status
    && ends_after now x.ends_at

-- activatePromo. The schema of the route lets 1 to 730 days pass, and so does the check here.
unfoldable pub activate_promo :
    Directory → ℕ → ℕ → ℕ → ℕ → Store → Result CommerceError (Subscription × Store)
unfolding find_first
activate_promo d now user_id admin_id days s =
    if ltb days 1 || ltb 730 days
    then throws invalid_promo_duration
    else if is_some (find_first (running_product now user_id d.control_product) s.subscriptions)
    then throws active_subscription_exists
    else ok (
      promo_subscription,
      log admin_id promo_activated s.next_id (record s {
        subscriptions = s.subscriptions ++ promo_subscription ∷ [];
        next_id = suc s.next_id;
      }),
    )
  where
    promo_subscription : Subscription
    promo_subscription = record {
      id = s.next_id;
      user_id = user_id;
      product_id = d.control_product;
      payment_id = none;
      status = trial;
      source = promo;
      starts_at = now;
      ends_at = some (now + days * day_ms);
      canceled_at = none;
      mandate_id = none;
      energy_site_id = none;
    }
