-- ===== src/Commerce/Finalize.antt =====
-- finalizePaidPayment of src/lib/commerce/payment.ts: the whole transaction, from the steps of
-- `Settle` and `Grant`.
use spottex_test.Common.{ℕ, Option, if◌then◌else◌, find_first, or_throw, Result, ok, ◌>>=◌}
use spottex_test.Jobs.Model.{payment_confirmation}
use spottex_test.Commerce.Model.{Cart, Payload, Payment}
use spottex_test.Commerce.Store.{
  Store, CommerceError, payment_not_found, payment_without_cart, payment_paid, is_paid,
  find_payment, log, queue_mail,
}
use spottex_test.Commerce.Settle.{
  cart_of, check_cart, check_run, accept_offer, check_trials, settle, queue_analysis,
}
use spottex_test.Commerce.Grant.{
  grant_mandate, grant_subscriptions, complete_renewal, issue_invoice,
}

-- The confirmation mail, keyed by the payment.
unfoldable pub confirm : ℕ → Payment → Store → Store
unfolding queue_mail
confirm now p s = queue_mail now (payment_confirmation p.id) p.user_id s

-- What follows the mandate, and cannot fail.
unfoldable pub deliver : (ℕ → ℕ) → ℕ → Payment → Cart → Option ℕ → Store → Store
unfolding confirm grant_subscriptions complete_renewal issue_invoice
deliver year_of now p c mandate s = log p.user_id payment_paid p.id (
    confirm now p (
      issue_invoice year_of now p c
        (complete_renewal now p mandate (grant_subscriptions now p mandate c.items s))))

-- The branch of a payment that is not PAID yet.
unfoldable pub fulfil : (ℕ → ℕ) → ℕ → Payload → Payment → Store → Result CommerceError Store
unfolding check_cart check_run accept_offer check_trials settle queue_analysis grant_mandate deliver
fulfil year_of now payload p s = do
  cart ← or_throw (cart_of p s) payment_without_cart
  c ← check_cart p cart
  s₁ ← check_run p s
  s₂ ← accept_offer now p s₁
  s₃ ← check_trials p c.items s₂
  s₄ ← queue_analysis now p (settle now payload p c s₃)
  (mandate, s₅) ← grant_mandate now p s₄
  ok (deliver year_of now p c mandate s₅)

-- finalizePaidPayment.
unfoldable pub finalize_paid_payment :
    (ℕ → ℕ) → ℕ → ℕ → Payload → Store → Result CommerceError Store
unfolding confirm fulfil find_first
finalize_paid_payment year_of now id payload s = do
  p ← or_throw (find_payment id s) payment_not_found
  let rest = fulfil year_of now payload p s
  if is_paid p.status then ok (confirm now p s) else rest
