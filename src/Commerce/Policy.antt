-- ===== src/Commerce/Policy.antt =====
-- src/lib/commerce/recurring-policy.ts, service-offer.ts, free-access.ts, and the trial length of
-- cart.ts: the pure rules of price and time. An amount that is no safe integer is told apart, and
-- only safe amounts are computed with.
use spottex_test.Common.{
  ℕ, ◌+◌, ◌-◌, ◌*◌, min, Bool, ◌&&◌, ◌||◌, Option, none, some, ltb, leb, ◌==◌, if◌then◌else◌,
  or_default, Result, ok, throws,
}
use spottex_test.Commerce.Model.{JsNumber, safe_nonneg, safe_negative, not_safe_integer}

abbrev pub recurring_renewal_max_attempts : ℕ
recurring_renewal_max_attempts = 3

abbrev pub recurring_max_amount_minor : ℕ
recurring_max_amount_minor = 99000

abbrev pub recurring_notice_days : ℕ
recurring_notice_days = 14

abbrev pub day_ms : ℕ
day_ms = 86400000

abbrev pub control_list_price_minor : ℕ
control_list_price_minor = 99000

abbrev pub control_savings_share_bps : ℕ
control_savings_share_bps = 2500

pub data PolicyError : Type 0 where
  invalid_amount invalid_savings invalid_list_price invalid_share : PolicyError

-- `!Number.isSafeInteger(value) || value < 0`.
abbrev pub amount : JsNumber → Option ℕ
amount (safe_nonneg n) = some n
amount (safe_negative n) = none
amount not_safe_integer = none

abbrev min_of : Option ℕ → Option ℕ → Option ℕ → Option ℕ → Result PolicyError ℕ
min_of (some a) (some b) (some c) (some d) = ok (min a (min b (min c d)))
min_of _ _ _ _ = throws invalid_amount

-- calculateRenewalAmount of recurring-policy.ts.
unfoldable pub calculate_renewal_amount :
    JsNumber → Option JsNumber → JsNumber → JsNumber → Result PolicyError ℕ
calculate_renewal_amount previous offer mandate_max global_max =
    min_of (amount previous) (amount (or_default offer previous)) (amount mandate_max)
      (amount global_max)

-- calculateRenewalAmount of recurring.ts, with the global cap.
unfoldable pub renewal_amount : ℕ → Option ℕ → ℕ → Result PolicyError ℕ
unfolding calculate_renewal_amount
renewal_amount previous offer mandate_max =
    calculate_renewal_amount (safe_nonneg previous) (lift offer) (safe_nonneg mandate_max)
      (safe_nonneg recurring_max_amount_minor)
  where
    lift : Option ℕ → Option JsNumber
    lift none = none
    lift (some n) = some (safe_nonneg n)

unfoldable pub recurring_retry_at : ℕ → ℕ → Option ℕ
recurring_retry_at now attempt_count =
    if leb recurring_renewal_max_attempts attempt_count
    then none
    else some (now + (if attempt_count == 1 then 1 else 3) * day_ms)

-- The result of `calculateAnnualControlOffer`.
pub record AnnualOffer : Type 0 where
  pub savings_minor : ℕ
  pub list_price_minor : ℕ
  pub share_bps : ℕ
  pub proportional_price_minor : ℕ
  pub final_price_minor : ℕ
  pub discount_minor : ℕ
  pub discount_percent : ℕ

-- The arithmetic of doubles: `Math.round(savingsMinor * savingsShareBps / 10_000)`, and
-- `Math.round(discountMinor / listPriceMinor * 100)`.
pub record Doubles : Type 0 where
  pub round_share : ℕ → ℕ → ℕ
  pub round_percent : ℕ → ℕ → ℕ

-- `Math.max(0, savings)` of a safe integer.
abbrev pub savings_of : JsNumber → Option ℕ
savings_of (safe_nonneg n) = some n
savings_of (safe_negative n) = some 0
savings_of not_safe_integer = none

-- The branches behind the checks.
unfoldable pub make_offer : Doubles → ℕ → ℕ → ℕ → AnnualOffer
make_offer doubles savings list_price share =
    let proportional = doubles.round_share savings share in
    let final = min list_price proportional in
    record {
      savings_minor = savings;
      list_price_minor = list_price;
      share_bps = share;
      proportional_price_minor = proportional;
      final_price_minor = final;
      discount_minor = list_price - final;
      discount_percent =
          if ltb 0 list_price then doubles.round_percent (list_price - final) list_price else 0;
    }

unfoldable pub checked_offer :
    Doubles → Option ℕ → Option ℕ → Option ℕ → Result PolicyError AnnualOffer
unfolding make_offer
checked_offer doubles none _ _ = throws invalid_savings
checked_offer doubles (some savings) none _ = throws invalid_list_price
checked_offer doubles (some savings) (some list_price) none = throws invalid_share
checked_offer doubles (some savings) (some list_price) (some share) =
    if ltb 10000 share
    then throws invalid_share
    else ok (make_offer doubles savings list_price share)

-- calculateAnnualControlOffer.
unfoldable pub calculate_annual_control_offer :
    Doubles → JsNumber → Option JsNumber → Option JsNumber → Result PolicyError AnnualOffer
unfolding checked_offer
calculate_annual_control_offer doubles savings list_price share =
    checked_offer doubles (savings_of savings)
      (amount (or_default list_price (safe_nonneg control_list_price_minor)))
      (amount (or_default share (safe_nonneg control_savings_share_bps)))

-- productFreeTrialDays.
unfoldable pub product_free_trial_days : JsNumber → ℕ
product_free_trial_days (safe_nonneg days) = if ltb 0 days && leb days 3650 then days else 0
product_free_trial_days (safe_negative n) = 0
product_free_trial_days not_safe_integer = 0

-- freeAccessEnabled, of `FREE_ACCESS_MODE === "true"` and `PAYMENT_PROVIDER` upper-cased.
unfoldable pub free_access_enabled : Bool → Bool → Bool
free_access_enabled mode_true provider_free = mode_true || provider_free
