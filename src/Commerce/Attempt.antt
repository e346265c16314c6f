-- ===== src/Commerce/Attempt.antt =====
-- createProviderRecurrence, processRecurringRenewalById and processRecurringRenewals of
-- src/lib/commerce/recurring.ts.
use spottex_test.Common.{
  ℕ, suc, Bool, false, ◌&&◌, ◌||◌, not, Option, none, some, List, [], ◌∷◌, ◌==◌, leb, if◌then◌else◌,
  find_many, sort_by, take, update_where, or_default, Result, ok, throws,
}
use spottex_test.Commerce.Model.{
  Payment, ProviderId, gopay_id, mock_renewal_id, ProviderState, gopay_paid, create_uncertain,
  Renewal,
}
use spottex_test.Commerce.Store.{
  Store, CommerceError, is_mock, is_chargeable, provider_id_eq, empty_payload, write_payment,
}
use spottex_test.Commerce.Finalize.{finalize_paid_payment}
use spottex_test.Commerce.Gateway.{Config, AskStatus}
use spottex_test.Commerce.Reconcile.{reconcile_gopay}
use spottex_test.Commerce.Renewal.{
  find_mandate, prepare_attempt, fail_attempt, unlinked_pending, not_due, send_renewal_notices,
}
use spottex_test.Commerce.Schedule.{Planning, schedule_upcoming, send_failed_notices}

-- The answer to a request for a repeated charge, and the store when it comes.
pub data Recurrence : Type 0 where
  no_token unreachable : Recurrence
  refused : ℕ → Recurrence
  answered : Option ℕ → Option ℕ → Option ProviderState → Recurrence

abbrev pub AskRecurrence : Type 0
AskRecurrence = Payment → Store → Recurrence × Store

pub data Attempted : Type 0 where
  was_skipped was_created was_uncertain was_failed : Attempted

abbrev pub charge_error : ℕ
charge_error = 3

abbrev uncertain_row : ℕ → Payment → Payment
uncertain_row now q = record q {
  payload = record empty_payload { state = some create_uncertain };
  updated_at = now;
}

-- The two ways to note that a charge may have been made: guarded, and by the id alone.
unfoldable pub mark_unreachable : ℕ → Payment → Store → Store
unfolding update_where
mark_unreachable now p s = record s {
  payments = update_where (unlinked_pending p.id) (uncertain_row now) s.payments;
}

abbrev mark_uncertain : ℕ → Payment → Store → Store
mark_uncertain now p s = write_payment now p.id (uncertain_row now) s

unfoldable pub fails : ℕ → Payment → ℕ → Store → Attempted × Store
unfolding fail_attempt
fails now p message s = (was_failed, fail_attempt now p.id (or_default p.renewal_id 0) message s)

abbrev may_have_charged : ℕ → Bool
may_have_charged code = leb 500 code || code == 408 || code == 409 || code == 425 || code == 429

-- A mock charge is paid at once; what throws fails the attempt.
unfoldable pub charge_mock : Config → ℕ → Payment → Store → Attempted × Store
unfolding fails update_where
charge_mock cfg now p s =
    let s' =
      write_payment now p.id
        (λ q. record q {
          provider_payment_id = some (mock_renewal_id p.id);
          payload = record empty_payload { state = some gopay_paid };
        })
        s in
    elim (finalize_paid_payment cfg.year_of now p.id
      (record empty_payload { state = some gopay_paid }) s') [
        | ok s₂ ↦ (was_created, s₂)
        | throws e ↦ fails now p charge_error s'
      ]

abbrev parent_of : Option ℕ → Store → Option ProviderId
parent_of none s = none
parent_of (some m) s = elim (find_mandate m s) [ none ↦ none | some x ↦ some x.parent_payment_id ]

abbrev same_parent : Option ℕ → Option ProviderId → Bool
same_parent (some n) (some i) = provider_id_eq (gopay_id n) i
same_parent _ _ = false

-- The payment gets GoPay's number and is reconciled; what that throws is swallowed.
unfoldable pub charge_created :
    Config → ℕ → ℕ → AskStatus → Payment → ℕ → Option ProviderState → Store → Attempted × Store
unfolding update_where
charge_created cfg now worker ask p i state s = (
  was_created,
  (reconcile_gopay cfg now worker ask p.id none (
      write_payment now p.id
        (λ q. record q {
          provider_payment_id = some (gopay_id i);
          payload = record empty_payload { state = state };
        })
        s)).1,
)

-- An answer without a payment's number, or of another parent, leaves the charge uncertain.
abbrev charge_answered :
    Config
    → ℕ
    → ℕ
    → AskStatus
    → Payment
    → Option ProviderId
    → Option ℕ
    → Option ℕ
    → Option ProviderState
    → Store
    → Attempted × Store
charge_answered cfg now worker ask p parent none n state s = (was_uncertain, mark_uncertain now p s)
charge_answered cfg now worker ask p parent (some i) n state s =
    if not (i == 0) && same_parent n parent
    then charge_created cfg now worker ask p i state s
    else (was_uncertain, mark_uncertain now p s)

unfoldable pub after_charge :
    Config
    → ℕ
    → ℕ
    → AskStatus
    → Payment
    → Option ProviderId
    → Recurrence
    → Store
    → Attempted × Store
unfolding fails mark_unreachable charge_created update_where
after_charge cfg now worker ask p parent no_token s = fails now p charge_error s
after_charge cfg now worker ask p parent unreachable s = (was_uncertain, mark_unreachable now p s)
after_charge cfg now worker ask p parent (refused code) s =
    if may_have_charged code
    then (was_uncertain, mark_uncertain now p s)
    else fails now p charge_error s
after_charge cfg now worker ask p parent (answered i n state) s =
    charge_answered cfg now worker ask p parent i n state s

-- createProviderRecurrence, with the failure that its caller makes of an error.
unfoldable pub create_provider_recurrence :
    Config → ℕ → ℕ → AskStatus → AskRecurrence → Payment → Store → Attempted × Store
unfolding charge_mock
create_provider_recurrence cfg now worker ask charge p s =
    if is_mock p.provider
    then charge_mock cfg now p s
    else (let (a, s') = charge p s in
        after_charge cfg now worker ask p (parent_of p.mandate_id s) a s')

abbrev charge_prepared :
    Config → ℕ → ℕ → AskStatus → AskRecurrence → Option Payment → Store → Attempted × Store
charge_prepared cfg now worker ask charge none s = (was_skipped, s)
charge_prepared cfg now worker ask charge (some p) s =
    create_provider_recurrence cfg now worker ask charge p s

-- processRecurringRenewalById.
unfoldable pub process_renewal :
    Config → ℕ → ℕ → AskStatus → AskRecurrence → ℕ → Store → Attempted × Store
unfolding prepare_attempt create_provider_recurrence
process_renewal cfg now worker ask charge id s =
    let (p, s') = prepare_attempt now id s in charge_prepared cfg now worker ask charge p s'

unfoldable pub process_renewals :
    Config → ℕ → ℕ → AskStatus → AskRecurrence → List Renewal → Store → List Attempted × Store
unfolding process_renewal
process_renewals cfg now worker ask charge [] s = ([], s)
process_renewals cfg now worker ask charge (r ∷ rs) s =
    let (a, s₁) = process_renewal cfg now worker ask charge r.id s in
    let (rest, s₂) = process_renewals cfg now (suc worker) ask charge rs s₁ in (a ∷ rest, s₂)

-- The renewals whose attempt is due.
abbrev pub due : ℕ → Renewal → Bool
due now r = is_chargeable r.status && not (not_due now r)

abbrev run_due : Config → ℕ → ℕ → AskStatus → AskRecurrence → Store → List Attempted × Store
run_due cfg now worker ask charge s =
    process_renewals cfg now worker ask charge
      (take 10 (sort_by (λ r. r.scheduled_at) (find_many (due now) s.renewals))) s

-- processRecurringRenewals: an error of the scheduling ends the run.
unfoldable pub process_recurring :
    Config
    → Planning
    → ℕ
    → ℕ
    → AskStatus
    → AskRecurrence
    → Store
    → Result CommerceError (List Attempted) × Store
unfolding schedule_upcoming send_renewal_notices process_renewals send_failed_notices find_many
    sort_by
process_recurring cfg plan now worker ask charge s =
    let (r, s₁) = schedule_upcoming plan now s in
    elim r [
      | throws e ↦ (throws e, s₁)
      | ok u ↦
          let (a, s₂) = run_due cfg now worker ask charge (send_renewal_notices now s₁).1 in
          (ok a, send_failed_notices now s₂)
    ]
