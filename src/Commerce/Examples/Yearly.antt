-- ===== src/Commerce/Examples/Yearly.antt =====
-- A year's renewal of a small shop.
use spottex_test.Common.{find_first, ◌≡◌, refl, none, some, arith}
use spottex_test.Commerce.Model.{Payment, gopay}
use spottex_test.Commerce.Store.{Store}
use spottex_test.Commerce.Renewal.{
  claim_attempt, attempt_with, attempt_payment, prepare_attempt, send_notice, revoke_mandate,
}
use spottex_test.Commerce.Charging.{prepare_once, charged_on_short_notice}
use spottex_test.Commerce.Examples.{yearly_shop, mandate, renewal, store_of}

abbrev noticed : Store
unfolding send_notice
noticed = (send_notice 1999 renewal yearly_shop).1

abbrev charge : Payment
charge = attempt_payment 2000 102 101 renewal gopay

abbrev charged : Store
unfolding prepare_attempt send_notice
charged = (prepare_attempt 2000 60 noticed).1

prepare_once_example : prepare_attempt 9000 60 charged ≡ (none, charged)
unfolding prepare_attempt send_notice attempt_with claim_attempt
prepare_once_example = prepare_once 2000 9000 60 noticed charged charge refl

abbrev revoked_shop : Store
unfolding revoke_mandate send_notice
revoked_shop = store_of (revoke_mandate 1999 1 50 noticed)

charged_on_short_notice_example :
    (p : Payment) × ((prepare_attempt 2000 60 (send_notice 1999 renewal yearly_shop).1).0 ≡ some p)
unfolding find_first
charged_on_short_notice_example =
    charged_on_short_notice 1999 2000 renewal mandate yearly_shop refl refl refl refl refl
      (omega arith) refl refl refl
