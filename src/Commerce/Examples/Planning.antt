-- ===== src/Commerce/Examples/Planning.antt =====
-- Planned and failed renewals of a small shop.
use spottex_test.Common.{◌≡◌, ◌+◌, ◌≤◌, ◌<◌, ℕ, refl, none, some, [], ◌∷◌, ◌++◌, ◌⊎◌, arith}
use spottex_test.Commerce.Model.{
  Offer, active, paid_source, Subscription, completed, base, Renewal, retry, failed_renewal,
}
use spottex_test.Commerce.Store.{Store}
use spottex_test.Commerce.Policy.{day_ms}
use spottex_test.Commerce.Renewal.{failed_attempt}
use spottex_test.Commerce.Schedule.{Planning, plan_renewal, priced_offer}
use spottex_test.Commerce.Pricing.{Asked, Capped, plan_renewal-Capped, failed_attempt_outcome}
use spottex_test.Commerce.Examples.{control, payment, mandate, renewal, shop, store_of}

failed_attempt_outcome_example :
    ((renewal.attempt_count < 3)
      × ((failed_attempt 2000 3 renewal).status ≡ retry)
      × ((t : ℕ) × ((failed_attempt 2000 3 renewal).next_attempt_at ≡ some t)
          × (2000 + day_ms ≤ t)))
    ⊎ ((3 ≤ renewal.attempt_count)
        × ((failed_attempt 2000 3 renewal).status ≡ failed_renewal)
        × ((failed_attempt 2000 3 renewal).completed_at ≡ some 2000))
failed_attempt_outcome_example = failed_attempt_outcome 2000 3 renewal

abbrev plan : Planning
plan = record { product_of = λ i. (control, 7); engine_version = 3; enqueue_analysis = λ u i s. s }

abbrev running : Subscription
running = record {
  id = 70;
  user_id = 1;
  product_id = 5;
  payment_id = some 10;
  status = active;
  source = paid_source;
  starts_at = 0;
  ends_at = some 3000;
  canceled_at = none;
  mandate_id = some 50;
  energy_site_id = some 40;
}

abbrev analysed : Store
analysed = record shop {
  subscriptions = running ∷ [];
  mandates = mandate ∷ [];
  runs =
      record {
        id = 90;
        user_id = 1;
        kind = base;
        status = completed;
        pro_price_minor = 0;
        engine = 3;
      }
      ∷ [];
}

abbrev planned : Store
unfolding plan_renewal
planned = store_of (plan_renewal plan 1000 running 3000 mandate payment analysed)

plan_renewal-Capped_example :
    ((o : Offer) × (priced_offer plan 1000 running analysed ≡ some o)
      × ((planned ≡ analysed)
          ⊎ ((r : Renewal) × (planned.renewals ≡ analysed.renewals ++ r ∷ [])
              × (r.subscription_id ≡ running.id)
              × (r.scheduled_at ≡ 3000)
              × Capped payment.amount_minor
                  (some o.final_price_minor)
                  mandate.max_amount_minor
                  r.amount_minor)))
    ⊎ ((priced_offer plan 1000 running analysed ≡ none) × Asked plan running 3000 analysed planned)
unfolding plan_renewal
plan_renewal-Capped_example =
    plan_renewal-Capped plan 1000 running 3000 mandate payment analysed planned refl (omega arith)
