-- ===== src/Commerce/Examples/Reversal.antt =====
-- Cancelled and refunded payments, and carts, of a small shop.
use spottex_test.Common.{find_first, ◌≡◌, refl, true, some, [], ◌∷◌, ok, arith}
use spottex_test.Jobs.Model.{Job, deactivation, gopay_refund, new_job}
use spottex_test.Commerce.Model.{paid, Payment, open_cart}
use spottex_test.Commerce.Store.{
  upsert_job, enqueue_deactivation, Store, empty_payload, find_payment,
}
use spottex_test.Commerce.Carts.{reopen_cart_if_possible, get_or_create_cart}
use spottex_test.Commerce.Terminal.{refund_paid, cancel_terminal_payment, record_refund}
use spottex_test.Commerce.OneOpen.{OneOpen, reopen_cart-OneOpen, get_or_create_cart-OneOpen}
use spottex_test.Commerce.Terminated.{
  Canceled, cancel_outcome, cancel_keeps_settled, cancel-OneOpen,
}
use spottex_test.Commerce.Refunded.{Refunded, refund_outcome, refund_idempotent}
use spottex_test.Commerce.Examples.{payment, cart, shop, second_of}

abbrev canceled_shop : Store
unfolding cancel_terminal_payment
canceled_shop = second_of (cancel_terminal_payment 1000 10 empty_payload shop)

cancel_outcome_example : Canceled 10 payment true shop canceled_shop
unfolding cancel_terminal_payment find_first
cancel_outcome_example =
    cancel_outcome 1000 10 empty_payload shop canceled_shop true payment refl refl

abbrev paid_payment : Payment
paid_payment = record payment { id = 11; status = paid }

abbrev two_payments : Store
two_payments = record shop { payments = payment ∷ paid_payment ∷ [] }

abbrev one_canceled : Store
unfolding cancel_terminal_payment
one_canceled = second_of (cancel_terminal_payment 1000 10 empty_payload two_payments)

cancel_keeps_settled_example : find_payment 11 one_canceled ≡ some paid_payment
unfolding cancel_terminal_payment find_first
cancel_keeps_settled_example =
    cancel_keeps_settled 1000 10 empty_payload two_payments one_canceled true payment 11
      paid_payment refl refl refl refl

cancel-OneOpen_example : OneOpen canceled_shop.carts
unfolding cancel_terminal_payment find_first
cancel-OneOpen_example =
    cancel-OneOpen 1000 10 empty_payload shop canceled_shop true payment 20 refl refl
      (λ e. refl, tt) (tt, tt) refl

abbrev paid_shop : Store
paid_shop = record shop { payments = record payment { status = paid } ∷ [] }

abbrev refund_job : Job
refund_job = new_job 100 (deactivation 1 (gopay_refund 10)) 1000

abbrev refunded_shop : Store
unfolding record_refund
refunded_shop = second_of (record_refund 1000 10 empty_payload paid_shop)

refund_outcome_example :
    Refunded 10 (record payment { status = paid }) refund_job paid_shop refunded_shop
unfolding record_refund find_first enqueue_deactivation upsert_job refund_paid
refund_outcome_example =
    refund_outcome 1000 10 empty_payload paid_shop refunded_shop refund_job
      (record payment { status = paid }) refl refl

refund_idempotent_example :
    record_refund 3000 10 empty_payload refunded_shop ≡ ok (refund_job, refunded_shop)
unfolding record_refund find_first enqueue_deactivation upsert_job refund_paid
refund_idempotent_example =
    refund_idempotent 1000 3000 10 empty_payload empty_payload paid_shop refunded_shop refund_job
      (record payment { status = paid }) refl refl (omega arith)

-- The user has another open cart.
abbrev two_carts : Store
two_carts = record shop { carts = cart ∷ record cart { id = 21; status = open_cart } ∷ [] }

abbrev two_agree : OneOpen two_carts.carts
two_agree = (((λ e f g. absurd (ground arith)), tt), (tt, tt))

reopen_cart-OneOpen_example : OneOpen (reopen_cart_if_possible 20 1 two_carts).carts
reopen_cart-OneOpen_example =
    reopen_cart-OneOpen 20 1 two_carts two_agree ((λ e. refl), ((λ e. refl), tt))

get_or_create_cart-OneOpen_example :
    let (c, s') = get_or_create_cart 203 1 shop in
    (c.user_id ≡ 1) × (c.status ≡ open_cart) × OneOpen s'.carts
get_or_create_cart-OneOpen_example = get_or_create_cart-OneOpen 203 1 shop (tt, tt)
