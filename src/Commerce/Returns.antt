-- ===== src/Commerce/Returns.antt =====
-- When finalizePaidPayment returns.
use spottex_test.Common.{ℕ, ◌<◌, ◌≡◌, refl, false, none, some, List, [], ◌∷◌, ok, arith}
use spottex_test.Commerce.Model.{Cart, CartItem, Payload, Payment, one_off}
use spottex_test.Commerce.Store.{Store, find_payment, is_paid}
use spottex_test.Commerce.Settle.{
  cart_of, check_cart, check_run, accept_offer, check_trials, settle, queue_analysis,
}
use spottex_test.Commerce.Grant.{grant_mandate}
use spottex_test.Commerce.Finalize.{deliver, fulfil, finalize_paid_payment}
use spottex_test.Commerce.Settled.{Settled, finalize_settles}

charged_trials :
    (p : Payment) (is : List CartItem) (s : Store) → 0 < p.amount_minor → check_trials p is s ≡ ok s
unfolding check_trials
charged_trials p [] s h = refl
charged_trials p (i ∷ is) s h = ground (arith, charged_trials p is s h)

no_mandate :
    (now : ℕ) (p : Payment) (s : Store)
    → p.charge_kind ≡ one_off
    → grant_mandate now p s ≡ ok (p.mandate_id, s)
unfolding grant_mandate
no_mandate now p s h = ground arith

no_analysis :
    (now : ℕ) (p : Payment) (s : Store) → p.analysis_run_id ≡ none → queue_analysis now p s ≡ ok s
unfolding queue_analysis
no_analysis now p s h = rw h refl

no_run : (p : Payment) (s : Store) → p.analysis_run_id ≡ none → check_run p s ≡ ok s
unfolding check_run
no_run p s h = rw h refl

no_offer :
    (now : ℕ) (p : Payment) (s : Store) → p.service_offer_id ≡ none → accept_offer now p s ≡ ok s
unfolding accept_offer
no_offer now p s h = rw h refl

fulfils :
    (year_of : ℕ → ℕ) (now : ℕ) (payload : Payload) (s : Store) (p : Payment) (c : Cart)
    → cart_of p s ≡ some c
    → check_cart p c ≡ ok c
    → 0 < p.amount_minor
    → p.charge_kind ≡ one_off
    → p.analysis_run_id ≡ none
    → p.service_offer_id ≡ none
    → fulfil year_of now payload p s
      ≡ ok (deliver year_of now p c p.mandate_id (settle now payload p c s))
unfolding fulfil
fulfils year_of now payload s p c at_c in_time paid kind run offer =
    rw
      (
        at_c,
        in_time,
        no_run p s run,
        no_offer now p s offer,
        charged_trials p c.items s paid,
        no_analysis now p (settle now payload p c s) run,
        no_mandate now p (settle now payload p c s) kind,
      )
      refl

-- A charged one-off payment that is not PAID, without an analysis and an offer, is finalized without
-- an error if its cart passes the check: a store is returned, in which the payment is PAID at the given
-- time with its amount, and its cart is PAID.
pub finalize_returns :
    (year_of : ℕ → ℕ) (now i : ℕ) (payload : Payload) (s : Store) (p : Payment) (c : Cart)
    → find_payment i s ≡ some p
    → is_paid p.status ≡ false
    → cart_of p s ≡ some c
    → check_cart p c ≡ ok c
    → 0 < p.amount_minor
    → p.charge_kind ≡ one_off
    → p.analysis_run_id ≡ none
    → p.service_offer_id ≡ none
    → (s' : Store) × (finalize_paid_payment year_of now i payload s ≡ ok s') × Settled now p s s'
unfolding finalize_paid_payment
finalize_returns year_of now i payload s p c found unpaid at_c in_time paid kind run offer =
    let returned : finalize_paid_payment year_of now i payload s
        ≡ ok (deliver year_of now p c p.mandate_id (settle now payload p c s)) =
      rw (found, unpaid, fulfils year_of now payload s p c at_c in_time paid kind run offer) refl in
    (_, returned, finalize_settles year_of now i payload s _ p found unpaid returned)
