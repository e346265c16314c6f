-- ===== src/Commerce/Schedule.antt =====
-- scheduleUpcomingRenewals and sendFailedRenewalNotices of src/lib/commerce/recurring.ts.
use spottex_test.Common.{
  ℕ, suc, ◌+◌, ◌-◌, ◌*◌, Bool, true, false, ◌&&◌, Option, none, some, List, [], ◌∷◌, ◌++◌, ◌==◌,
  ltb, leb, if◌then◌else◌, find_first, find_last, find_many, sort_by, take, row, is_some,
  or_default, Result, ok, throws,
}
use spottex_test.Jobs.Model.{renewal_failed, fresh_analysis_required}
use spottex_test.Commerce.Policy.{day_ms, renewal_amount}
use spottex_test.Commerce.Model.{
  Product, Payment, Subscription, SubscriptionStatus, active, Mandate, Renewal, RenewalStatus,
  scheduled, failed_renewal, Offer, Run, RunStatus, completed,
}
use spottex_test.Commerce.Store.{
  Store, CommerceError, invalid_renewal_amount, is_active_mandate, is_offered, find_payment,
  queue_mail,
}
use spottex_test.Commerce.Renewal.{find_mandate}

-- The catalogue (a product and its name), the version of the analysis engine, and enqueueAnalysis of
-- src/lib/analysis/service.ts, whose errors are swallowed.
pub record Planning : Type 0 where
  pub product_of : ℕ → Product × ℕ
  pub engine_version : ℕ
  pub enqueue_analysis : ℕ → ℕ → Store → Store

abbrev is_active_subscription : SubscriptionStatus → Bool
is_active_subscription active = true
is_active_subscription _ = false

abbrev is_completed : RunStatus → Bool
is_completed completed = true
is_completed _ = false

abbrev is_failed : RenewalStatus → Bool
is_failed failed_renewal = true
is_failed _ = false

abbrev runs_on : ℕ → Option ℕ → Bool
runs_on now none = true
runs_on now (some t) = ltb now t

-- `recurringMandate` of a subscription.
abbrev pub mandate_of : Subscription → Store → Option Mandate
mandate_of x s = elim x.mandate_id [ none ↦ none | some m ↦ find_mandate m s ]

abbrev has_valid_mandate : ℕ → Subscription → Store → Bool
has_valid_mandate now x s = elim (mandate_of x s) [
  | none ↦ false
  | some m ↦ is_active_mandate m.status && runs_on now m.valid_until
]

abbrev ends_within : ℕ → ℕ → Option ℕ → Bool
ends_within now last none = false
ends_within now last (some e) = ltb now e && leb e last

abbrev pub upcoming : ℕ → Store → Subscription → Bool
upcoming now s x =
    is_active_subscription x.status
    && ends_within now (now + 45 * day_ms) x.ends_at
    && has_valid_mandate now x s

-- The site's newest offer that is OFFERED, valid, of an analysis, and of the last sixty days.
abbrev fresh_offer : ℕ → ℕ → Offer → Bool
fresh_offer now site o =
    o.energy_site_id == site
    && is_offered o.status
    && ltb now o.valid_until
    && is_some o.analysis_run_id
    && leb (now - 60 * day_ms) o.created_at

unfoldable pub latest_offer : ℕ → Option ℕ → Store → Option Offer
unfolding find_last
latest_offer now none s = none
latest_offer now (some site) s = find_last (fresh_offer now site) s.offers

abbrev run_is_fresh : Planning → Option Run → Bool
run_is_fresh plan none = false
run_is_fresh plan (some r) = is_completed r.status && r.engine == plan.engine_version

-- `freshAnalysis`.
abbrev has_fresh_analysis : Planning → Offer → Store → Bool
has_fresh_analysis plan o s = elim o.analysis_run_id [
  | none ↦ false
  | some i ↦ run_is_fresh plan (row (λ r. r.id) i s.runs)
]

-- The offer that the price is taken from.
unfoldable pub priced_offer : Planning → ℕ → Subscription → Store → Option Offer
unfolding latest_offer find_first
priced_offer plan now x s = elim (latest_offer now x.energy_site_id s) [
  | none ↦ none
  | some o ↦ if has_fresh_analysis plan o s then some o else none
]

abbrev pub asks_analysis : Planning → Subscription → Store → Store
asks_analysis plan x s = elim x.energy_site_id [
  | none ↦ s
  | some site ↦ plan.enqueue_analysis x.user_id site s
]

-- Without a fresh analysis: one is asked for, and the user is told.
unfoldable pub ask_fresh_analysis : Planning → ℕ → Subscription → ℕ → Store → Store
unfolding queue_mail
ask_fresh_analysis plan now x ends s =
    queue_mail now (fresh_analysis_required x.id ends) x.user_id (asks_analysis plan x s)

abbrev pub planned_renewal : Planning → Subscription → Mandate → Payment → ℕ → ℕ → ℕ → Renewal
planned_renewal plan x m p amount ends id = record {
  id = id;
  user_id = x.user_id;
  mandate_id = m.id;
  subscription_id = x.id;
  product = (plan.product_of x.product_id).0;
  product_name = (plan.product_of x.product_id).1;
  energy_site_id = x.energy_site_id;
  status = scheduled;
  amount_minor = amount;
  currency = p.currency;
  notice_at = ends - m.notice_days * day_ms;
  scheduled_at = ends;
  notice_sent_at = none;
  attempt_count = 0;
  next_attempt_at = none;
  completed_at = none;
  last_error = none;
}

-- `recurringRenewal.upsert`: a subscription has one renewal.
unfoldable pub upsert_renewal : Planning → Subscription → Mandate → Payment → ℕ → ℕ → Store → Store
unfolding find_first
upsert_renewal plan x m p amount ends s =
    elim (find_first (λ r. r.subscription_id == x.id) s.renewals) [
      | some r ↦ s
      | none ↦ record s {
        renewals = s.renewals ++ planned_renewal plan x m p amount ends s.next_id ∷ [];
        next_id = suc s.next_id;
      }
    ]

unfoldable pub plan_renewal :
    Planning → ℕ → Subscription → ℕ → Mandate → Payment → Store → Result CommerceError Store
unfolding priced_offer upsert_renewal ask_fresh_analysis renewal_amount
plan_renewal plan now x ends m p s =
    if p.amount_minor == 0 then ok s else elim (priced_offer plan now x s) [
      | none ↦ ok (ask_fresh_analysis plan now x ends s)
      | some o ↦
          elim (renewal_amount p.amount_minor (some o.final_price_minor) m.max_amount_minor) [
            | throws e ↦ throws invalid_renewal_amount
            | ok amount ↦ ok (upsert_renewal plan x m p amount ends s)
          ]
    ]

abbrev payment_of : Subscription → Store → Option Payment
payment_of x s = elim x.payment_id [ none ↦ none | some i ↦ find_payment i s ]

-- One round of the loop; a subscription without an end, a mandate or a payment is passed over.
unfoldable pub schedule_renewal : Planning → ℕ → Subscription → Store → Result CommerceError Store
unfolding plan_renewal find_first
schedule_renewal plan now x s = elim x.ends_at [
  | none ↦ ok s
  | some ends ↦ elim (mandate_of x s) [
    | none ↦ ok s
    | some m ↦ elim (payment_of x s) [ none ↦ ok s | some p ↦ plan_renewal plan now x ends m p s ]
  ]
]

-- The loop: what was written before an error stays.
unfoldable pub schedule_all :
    Planning → ℕ → List Subscription → Store → Result CommerceError (Unit {0}) × Store
unfolding schedule_renewal
schedule_all plan now [] s = (ok tt, s)
schedule_all plan now (x ∷ xs) s = elim (schedule_renewal plan now x s) [
  | throws e ↦ (throws e, s)
  | ok s' ↦ schedule_all plan now xs s'
]

-- scheduleUpcomingRenewals, without its count.
unfoldable pub schedule_upcoming : Planning → ℕ → Store → Result CommerceError (Unit {0}) × Store
unfolding schedule_all find_many sort_by find_first
schedule_upcoming plan now s =
    schedule_all plan now
      (take 200
        (sort_by (λ x. or_default x.ends_at 0) (find_many (upcoming now s) s.subscriptions)))
      s

unfoldable pub mail_failures : ℕ → List Renewal → Store → Store
unfolding queue_mail
mail_failures now [] s = s
mail_failures now (r ∷ rs) s =
    mail_failures now rs (queue_mail now (renewal_failed r.id) r.user_id s)

abbrev reversed : List Renewal → List Renewal → List Renewal
reversed [] done = done
reversed (r ∷ rs) done = reversed rs (r ∷ done)

-- sendFailedRenewalNotices.
unfoldable pub send_failed_notices : ℕ → Store → Store
unfolding mail_failures find_many sort_by
send_failed_notices now s =
    mail_failures now
      (take 200 (
        reversed
          (sort_by (λ r. or_default r.completed_at 0)
            (find_many (λ r. is_failed r.status) s.renewals))
          []))
      s
