-- ===== src/Commerce/Examples/Settlement.antt =====
-- Runs of finalizePaidPayment on a small shop.
use spottex_test.Commerce.Settle.{check_cart, expected_total}
use spottex_test.Common.{find_first, none, ◌≡◌, refl, some, [], ◌∷◌, ◌++◌, ok, arith}
use spottex_test.Commerce.Model.{Payment, one_off, Invoice}
use spottex_test.Commerce.Store.{Store, empty_payload}
use spottex_test.Commerce.Grant.{invoice_of}
use spottex_test.Commerce.Returns.{finalize_returns}
use spottex_test.Commerce.Finalize.{finalize_paid_payment}
use spottex_test.Commerce.Settled.{Settled, finalize_settles, finalize_idempotent}
use spottex_test.Commerce.Invoicing.{Numbered, lines_total, finalize_invoices, finalize-Numbered}
use spottex_test.Commerce.Examples.{cart, year_of, payment, shop, free_shop, store_of}

abbrev settled : Store
unfolding finalize_paid_payment
settled = store_of (finalize_paid_payment year_of 1000 10 empty_payload shop)

abbrev free_settled : Store
unfolding finalize_paid_payment
free_settled = store_of (finalize_paid_payment year_of 1000 10 empty_payload free_shop)

finalize_settles_example : Settled 1000 payment shop settled
unfolding finalize_paid_payment expected_total
finalize_settles_example =
    finalize_settles year_of 1000 10 empty_payload shop settled payment refl refl refl

finalize_idempotent_example :
    finalize_paid_payment year_of 3000 10 empty_payload settled ≡ ok settled
unfolding finalize_paid_payment expected_total
finalize_idempotent_example =
    finalize_idempotent year_of 1000 3000 10 empty_payload empty_payload shop settled refl

finalize_invoices_example :
    (v : Invoice) × (settled.invoices ≡ shop.invoices ++ v ∷ [])
    × (invoice_of payment settled.invoices ≡ some v)
    × (v.total_minor ≡ payment.amount_minor)
    × (lines_total v.items ≡ payment.amount_minor)
unfolding finalize_paid_payment expected_total
finalize_invoices_example =
    finalize_invoices year_of 1000 10 empty_payload shop settled payment refl refl (omega arith)
      refl refl

finalize-Numbered_example : Numbered settled.counters settled.invoices
unfolding finalize_paid_payment expected_total
finalize-Numbered_example =
    finalize-Numbered year_of 1000 10 empty_payload shop settled payment refl refl tt refl

-- The same payment at one charge, without an offer.
abbrev plain : Payment
plain = record payment { charge_kind = one_off; service_offer_id = none }

abbrev plain_shop : Store
plain_shop = record shop { payments = plain ∷ [] }

finalize_returns_example :
    (s' : Store) × (finalize_paid_payment year_of 1000 10 empty_payload plain_shop ≡ ok s')
    × Settled 1000 plain plain_shop s'
unfolding find_first check_cart expected_total
finalize_returns_example =
    finalize_returns year_of 1000 10 empty_payload plain_shop plain cart refl refl refl refl
      (omega arith) refl refl refl
