-- ===== src/Commerce/Pricing.antt =====
-- The bounds on prices and retries: recurring-policy.ts, service-offer.ts, and what recurring.ts makes
-- of them.
use spottex_test.Common.{
  ℕ, ◌/◌, true, min, ==_refl, ◌+◌, ◌*◌, ◌≤◌, ◌<◌, ◌≡◌, refl, sym, subst, ap, ◌∙◌, ◌⊎◌, inl, inr,
  Option, Option-cases, Bool-cases, none, some, [], ◌∷◌, ◌++◌, ok, or_default, leb, ◌==◌,
  if◌then◌else◌, find_first, arith,
}
use native.Mathlib.Nat.{mul-le-mul_left}
use spottex_test.Commerce.Model.{
  JsNumber, safe_nonneg, Renewal, retry, failed_renewal, Subscription, Mandate, Offer, Payment,
}
use spottex_test.Commerce.Store.{Store, queue_mail}
use spottex_test.Commerce.Policy.{
  renewal_amount, calculate_renewal_amount, recurring_retry_at, AnnualOffer, Doubles, make_offer,
  savings_of, amount, control_list_price_minor, control_savings_share_bps, checked_offer,
  calculate_annual_control_offer, day_ms, recurring_max_amount_minor,
}
use spottex_test.Commerce.Schedule.{
  Planning, plan_renewal, upsert_renewal, ask_fresh_analysis, priced_offer, planned_renewal,
  asks_analysis,
}
use spottex_test.Commerce.Delivery.{has_mail-append}
use spottex_test.Jobs.Model.{fresh_analysis_required, has_mail, mail_key_eq}
use spottex_test.Commerce.Renewal.{failed_attempt}

-- The price of a renewal is never above what was paid before, above the newest offer, above the
-- mandate's limit, or above 990 CZK.
pub record Capped (previous : ℕ) (offer : Option ℕ) (mandate_max a : ℕ) : Type 0 where
  pub not_above_previous : a ≤ previous
  pub not_above_offer : a ≤ or_default offer previous
  pub not_above_mandate : a ≤ mandate_max
  pub not_above_cap : a ≤ recurring_max_amount_minor

-- For amounts that are safe integers, a price is found, and it is at most the previous payment, the newest
-- offer if there is one, the mandate's limit and 99000 minor units.
renewal_amount-Capped :
    (previous : ℕ) (offer : Option ℕ) (mandate_max : ℕ)
    → (a : ℕ) × (renewal_amount previous offer mandate_max ≡ ok a)
      × Capped previous offer mandate_max a
unfolding renewal_amount calculate_renewal_amount
renewal_amount-Capped previous none mandate_max = (
  _,
  refl,
  record {
    not_above_previous = omega arith;
    not_above_offer = omega arith;
    not_above_mandate = omega arith;
    not_above_cap = omega arith;
  },
)
renewal_amount-Capped previous (some o) mandate_max = (
  _,
  refl,
  record {
    not_above_previous = omega arith;
    not_above_offer = omega arith;
    not_above_mandate = omega arith;
    not_above_cap = omega arith;
  },
)

-- The share in hundredths of a percent, rounded to the nearest.
nearest_share : ℕ → ℕ → ℕ
nearest_share savings share = (2 * savings * share + 10000) / 20000

-- The arithmetic of doubles rounds exactly where products stay below 2^53.
abbrev IsExact : Doubles → Type 0
IsExact doubles = (a b : ℕ) → a * b < 9007199254740992 → doubles.round_share a b ≡ nearest_share a b

share_le : (savings share : ℕ) → share ≤ 10000 → nearest_share savings share ≤ savings
unfolding nearest_share
share_le savings share h = omega (arith, mul-le-mul_left savings h)

-- What an offer for a year promises: its price is the list price or the share of the savings, rounded
-- to the nearest, whichever is less; with its discount it makes up the list price; and it is not above
-- the savings.
pub record Fair (o : AnnualOffer) : Type 0 where
  pub price : o.final_price_minor ≡ min o.list_price_minor o.proportional_price_minor
  pub not_below : o.savings_minor * o.share_bps < 10000 * o.proportional_price_minor + 5001
  pub not_above : 10000 * o.proportional_price_minor ≤ o.savings_minor * o.share_bps + 5000
  pub parts : o.final_price_minor + o.discount_minor ≡ o.list_price_minor
  pub not_above_savings : o.final_price_minor ≤ o.savings_minor
  pub share_in_range : o.share_bps ≤ 10000

nearest_above : (savings share : ℕ) → savings * share < 10000 * nearest_share savings share + 5001
unfolding nearest_share
nearest_above savings share = omega arith

nearest_below : (savings share : ℕ) → 10000 * nearest_share savings share ≤ savings * share + 5000
unfolding nearest_share
nearest_below savings share = omega arith

make_offer-Fair :
    (doubles : Doubles) (savings list_price share : ℕ)
    → IsExact doubles
    → savings * share < 9007199254740992
    → share ≤ 10000
    → Fair (make_offer doubles savings list_price share)
unfolding make_offer
make_offer-Fair doubles savings list_price share exact small h = record {
  price = refl;
  not_below = rw (exact savings share small) (nearest_above savings share);
  not_above = rw (exact savings share small) (nearest_below savings share);
  parts = omega arith;
  not_above_savings = omega (arith, share_le savings share h, exact savings share small);
  share_in_range = h;
}

offers :
    (doubles : Doubles) (savings list_price share : Option ℕ) (o : AnnualOffer)
    → checked_offer doubles savings list_price share ≡ ok o
    → (a b c : ℕ) × (c ≤ 10000) × (o ≡ make_offer doubles a b c)
unfolding checked_offer
offers doubles none _ _ o h = absurd (ground arith)
offers doubles (some a) none _ o h = absurd (ground arith)
offers doubles (some a) (some b) none o h = absurd (ground arith)
offers doubles (some a) (some b) (some c) o h = (a, b, c, ground arith, ground arith)

-- Every offer that is computed is fair, when the product of its savings and its share stays below 2^53,
-- where the code's doubles are exact: the share is at most 10000 hundredths of a percent, the price is
-- that share of the savings, rounded to the nearest, or the list price if it is less, with the discount
-- it makes up the list price, and it is never above the savings.
calculate_annual_control_offer-Fair :
    (doubles : Doubles) (savings : JsNumber) (list_price share : Option JsNumber) (o : AnnualOffer)
    → IsExact doubles
    → calculate_annual_control_offer doubles savings list_price share ≡ ok o
    → o.savings_minor * o.share_bps < 9007199254740992
    → Fair o
unfolding calculate_annual_control_offer make_offer
calculate_annual_control_offer-Fair doubles savings list_price share o exact h small =
    let (a, b, c, in_range, e) =
      offers doubles (savings_of savings)
        (amount (or_default list_price (safe_nonneg control_list_price_minor)))
        (amount (or_default share (safe_nonneg control_savings_share_bps))) o h in
    subst Fair (sym e) (
      make_offer-Fair doubles a b c exact
        (subst (λ (v : AnnualOffer). v.savings_minor * v.share_bps < 9007199254740992) e small)
        in_range)

retry_at :
    (now n : ℕ)
    → ((t : ℕ) × (recurring_retry_at now n ≡ some t) × (n < 3) × (now + day_ms ≤ t))
      ⊎ ((recurring_retry_at now n ≡ none) × (3 ≤ n))
unfolding recurring_retry_at
retry_at now n = elim (Bool-cases (leb 3 n)) [
  | inl e ↦ inr (rw e refl, ground arith)
  | inr e ↦ inl (now + (if n == 1 then 1 else 3) * day_ms, rw e refl, ground arith, ground arith)
]

-- A failed attempt is retried a day later or after that, with fewer than three attempts made, and is
-- FAILED at once otherwise.
pub failed_attempt_outcome :
    (now message : ℕ) (r : Renewal)
    → let r' = failed_attempt now message r in
      ((r.attempt_count < 3)
        × (r'.status ≡ retry)
        × ((t : ℕ) × (r'.next_attempt_at ≡ some t) × (now + day_ms ≤ t)))
      ⊎ ((3 ≤ r.attempt_count) × (r'.status ≡ failed_renewal) × (r'.completed_at ≡ some now))
failed_attempt_outcome now message r = elim (retry_at now r.attempt_count) [
  | inl (t, e, left, later) ↦
      inl (left, rw (failed_attempt, e) refl, (t, rw (failed_attempt, e) refl, later))
  | inr (e, over) ↦ inr (over, rw (failed_attempt, e) refl, rw (failed_attempt, e) refl)
]

upsert_cases :
    (plan : Planning) (x : Subscription) (m : Mandate) (p : Payment) (a ends : ℕ) (s : Store)
    → (upsert_renewal plan x m p a ends s ≡ s)
      ⊎ ((upsert_renewal plan x m p a ends s).renewals
          ≡ s.renewals ++ planned_renewal plan x m p a ends s.next_id ∷ [])
unfolding upsert_renewal
upsert_cases plan x m p a ends s =
    elim (Option-cases (find_first (λ r. r.subscription_id == x.id) s.renewals)) [
      | inl e ↦ inr (rw (upsert_renewal, e) refl)
      | inr (r, e) ↦ inl (rw (upsert_renewal, e) refl)
    ]

plans :
    (plan : Planning) (now : ℕ) (x : Subscription) (ends : ℕ) (m : Mandate) (p : Payment)
    (s s' : Store) (o : Offer) (a : ℕ)
    → plan_renewal plan now x ends m p s ≡ ok s'
    → 0 < p.amount_minor
    → priced_offer plan now x s ≡ some o
    → renewal_amount p.amount_minor (some o.final_price_minor) m.max_amount_minor ≡ ok a
    → s' ≡ upsert_renewal plan x m p a ends s
unfolding plan_renewal
plans plan now x ends m p s s' o a h paid e f = ground arith

asks :
    (plan : Planning) (now : ℕ) (x : Subscription) (ends : ℕ) (m : Mandate) (p : Payment)
    (s s' : Store)
    → plan_renewal plan now x ends m p s ≡ ok s'
    → 0 < p.amount_minor
    → priced_offer plan now x s ≡ none
    → s' ≡ ask_fresh_analysis plan now x ends s
unfolding plan_renewal
asks plan now x ends m p s s' h paid e = ground arith

-- Nothing but a mail and, where there is a site, the request for an analysis has been written.
pub record Asked (plan : Planning) (x : Subscription) (ends : ℕ) (s s' : Store) : Type 0 where
  pub asked : Store
  pub without_site : x.energy_site_id ≡ none → asked ≡ s
  pub with_site :
      (site : ℕ) → x.energy_site_id ≡ some site → asked ≡ plan.enqueue_analysis x.user_id site s
  pub renewals : s'.renewals ≡ asked.renewals
  pub subscriptions : s'.subscriptions ≡ asked.subscriptions
  pub mailed : has_mail (fresh_analysis_required x.id ends) s'.outbox ≡ true

mailed_tables :
    (now u i ends : ℕ) (s : Store)
    → let k = fresh_analysis_required i ends in
      ((queue_mail now k u s).renewals ≡ s.renewals)
      × ((queue_mail now k u s).subscriptions ≡ s.subscriptions)
      × (has_mail k (queue_mail now k u s).outbox ≡ true)
unfolding queue_mail mail_key_eq
mailed_tables now u i ends s =
    elim (Bool-cases (has_mail (fresh_analysis_required i ends) s.outbox)) [
      | inl e ↦ rw e (refl, refl, e)
      | inr e ↦ rw e (
        refl,
        refl,
        has_mail-append (fresh_analysis_required i ends) s.outbox _
            (ground (arith, ==_refl i, ==_refl ends)),
      )
    ]

ask-Asked :
    (plan : Planning) (now : ℕ) (x : Subscription) (ends : ℕ) (s : Store)
    → Asked plan x ends s (ask_fresh_analysis plan now x ends s)
unfolding ask_fresh_analysis
ask-Asked plan now x ends s =
    let (r, b, m) = mailed_tables now x.user_id x.id ends (asks_analysis plan x s) in
    record {
      asked = asks_analysis plan x s;
      without_site = λ e. rw e refl;
      with_site = λ site e. rw e refl;
      renewals = r;
      subscriptions = b;
      mailed = m;
    }

-- Planning the renewal of a subscription that was paid for, if it returns: without an offer of a fresh
-- analysis, one is asked for where the subscription has a site, nothing is asked for where it has none,
-- beyond that request no renewal or subscription is written, and the user's mail is in the outbox; otherwise the store stays as it is, or one renewal is appended,
-- for the subscription, at its end, and at most at the price paid, the offer's price, the mandate's
-- limit and 99000 minor units.
pub plan_renewal-Capped :
    (plan : Planning) (now : ℕ) (x : Subscription) (ends : ℕ) (m : Mandate) (p : Payment)
    (s s' : Store)
    → plan_renewal plan now x ends m p s ≡ ok s'
    → 0 < p.amount_minor
    → ((o : Offer) × (priced_offer plan now x s ≡ some o)
        × ((s' ≡ s)
            ⊎ ((r : Renewal) × (s'.renewals ≡ s.renewals ++ r ∷ [])
                × (r.subscription_id ≡ x.id)
                × (r.scheduled_at ≡ ends)
                × Capped p.amount_minor
                    (some o.final_price_minor)
                    m.max_amount_minor
                    r.amount_minor)))
      ⊎ ((priced_offer plan now x s ≡ none) × Asked plan x ends s s')
plan_renewal-Capped plan now x ends m p s s' h paid =
    elim (Option-cases (priced_offer plan now x s)) [
      | inl e ↦ inr (
        e,
        subst (Asked plan x ends s) (sym (asks plan now x ends m p s s' h paid e))
            (ask-Asked plan now x ends s),
      )
      | inr (o, e) ↦
          let (a, f, capped) =
            renewal_amount-Capped p.amount_minor (some o.final_price_minor) m.max_amount_minor in
          let planned = plans plan now x ends m p s s' o a h paid e f in
          elim (upsert_cases plan x m p a ends s) [
            | inl g ↦ inl (o, e, inl (planned ∙ g))
            | inr g ↦ inl (
              o,
              e,
              inr (
                planned_renewal plan x m p a ends s.next_id,
                ap (λ u. u.renewals) planned ∙ g,
                refl,
                refl,
                capped,
              ),
            )
          ]
    ]
