-- ===== src/Commerce/Examples/Checkout.antt =====
-- Checkouts of a small shop.
use spottex_test.Common.{◌≡◌, refl, true, false, some, [], ◌∷◌, ok}
use spottex_test.Commerce.Model.{Cart, open_cart}
use spottex_test.Commerce.Store.{items_total, Store}
use spottex_test.Commerce.Settle.{cart_of, check_cart}
use spottex_test.Commerce.Checkout.{
  sells_subscription, named_ids, prepare_with, Shop, Prepared, prepare_checkout, checkout_payment,
}
use spottex_test.Commerce.CheckedOut.{prepare-check_cart, prepare-prepare}
use spottex_test.Commerce.Examples.{cart, shop, second_of}

abbrev environment : Shop
environment = record {
  free_access = false;
  gopay_configured = true;
  production = true;
  consent_version = 1;
  consent_sha256 = 9;
  three_years_on = λ t. t;
}

abbrev open_shop : Store
open_shop = record shop { carts = record cart { status = open_cart } ∷ []; payments = [] }

abbrev bought : Store
unfolding prepare_checkout
bought = second_of (prepare_checkout environment 500 1 20 true open_shop)

abbrev prepared : Prepared
prepared = record {
  cart = record cart { status = open_cart };
  payment = checkout_payment environment 500 true (record cart { status = open_cart }) 100;
  existing = false;
}

prepare-check_cart_example :
    (c' : Cart) × (cart_of prepared.payment bought ≡ some c')
    × (check_cart prepared.payment c' ≡ ok c')
unfolding prepare_checkout prepare_with items_total named_ids sells_subscription
prepare-check_cart_example =
    prepare-check_cart environment 500 1 20 true open_shop bought
      (record cart { status = open_cart }) prepared refl refl refl refl

prepare-prepare_example :
    (c' : Cart) × (prepare_checkout environment 900 1 20 false bought
      ≡ ok (record { cart = c'; payment = prepared.payment; existing = true }, bought))
unfolding prepare_checkout prepare_with items_total named_ids sells_subscription
prepare-prepare_example =
    prepare-prepare environment 500 900 1 20 true false open_shop bought
      (record cart { status = open_cart }) prepared refl refl refl
