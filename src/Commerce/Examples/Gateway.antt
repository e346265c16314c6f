-- ===== src/Commerce/Examples/Gateway.antt =====
-- Reconciliations of a small shop with answers of GoPay.
use spottex_test.Commerce.Settle.{expected_total}
use spottex_test.Commerce.Finalize.{finalize_paid_payment}
use spottex_test.Common.{find_first, ℕ, ◌≡◌, arith, refl, true, none, some, []}
use spottex_test.Commerce.Model.{ProviderId, gopay_id, gopay_paid, Payment, paid}
use spottex_test.Commerce.Store.{Store, find_payment}
use spottex_test.Commerce.Gateway.{answer_matches, Config, GopayAnswer, AskStatus}
use spottex_test.Commerce.Reconcile.{
  touch_paid, finalizes, dispatch, link_payment, apply_answer, judge, check_answer, ask_and_apply,
  reconcile_gopay,
}
use spottex_test.Commerce.Reconciled.{SameDeal, reconcile_paid}
use spottex_test.Commerce.Mismatch.{Refused, AnswersFor, reconcile_mismatch}
use spottex_test.Commerce.Examples.{year_of, payment, shop}

abbrev config : Config
config = record {
  directory = record { is_active_user = λ i. true; control_product = 5; control_active = true };
  deactivate = λ user job attempt s. (some (record { attempted = 1; failed = 0 }), s);
  year_of = year_of;
  go_id = 8;
  parse_url = λ u. none;
  api_host = [];
}

abbrev answer : ℕ → GopayAnswer
answer n = record {
  http_ok = true;
  state = some gopay_paid;
  id = some 777;
  amount = some n;
  currency = some 203;
  order_number = some 10;
  goid = some 8;
  gateway_url = none;
}

abbrev ask : ℕ → AskStatus
ask n i s = (some (answer n), s)

abbrev reconciled : Store
unfolding reconcile_gopay
reconciled = (reconcile_gopay config 1000 1 (ask 49900) 10 none shop).1

reconcile_paid_example :
    ((i : ProviderId) × (a : GopayAnswer) × ((ask 49900 i shop).0 ≡ some a)
      × SameDeal config payment a)
    × ((q : Payment) × (find_payment 10 reconciled ≡ some q) × (q.status ≡ paid))
unfolding reconcile_gopay find_first ask_and_apply check_answer judge answer_matches apply_answer
    link_payment dispatch finalizes finalize_paid_payment expected_total touch_paid
reconcile_paid_example =
    reconcile_paid config 1000 1 (ask 49900) 10 none shop reconciled payment refl refl

other_amount : ¬ AnswersFor config payment (gopay_id 777) (answer 100)
other_amount about = let e = about.deal.amount in ground arith

reconcile_mismatch_example : Refused shop (reconcile_gopay config 1000 1 (ask 100) 10 none shop)
unfolding find_first
reconcile_mismatch_example =
    reconcile_mismatch config 1000 1 (ask 100) 10 none shop shop payment (gopay_id 777) (answer 100)
      refl refl refl refl refl other_amount
