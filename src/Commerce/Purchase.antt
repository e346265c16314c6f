-- ===== src/Commerce/Purchase.antt =====
-- createCheckout of src/lib/commerce/payment.ts after its transaction: where the customer is sent, and
-- the payment that GoPay is asked to create.
use spottex_test.Common.{
  ℕ, Bool, ◌&&◌, ◌||◌, not, Option, none, some, ◌==◌, leb, if◌then◌else◌, is_some, update_where, ok,
  throws,
}
use spottex_test.Commerce.Model.{
  Cart, canceled_cart, Payment, failed, mock, manual, gopay_id, gopay_created, create_uncertain,
  create_failed,
}
use spottex_test.Commerce.Store.{
  Store, gopay_request_failed, in_checkout, is_pending, has_free_access, empty_payload,
  write_payment,
}
use spottex_test.Commerce.Carts.{reopen_cart_if_possible}
use spottex_test.Commerce.Finalize.{finalize_paid_payment}
use spottex_test.Commerce.Gateway.{Config, safe_gateway_url}
use spottex_test.Commerce.Exec.{Exec, committed, ◌>>=◌}
use spottex_test.Commerce.Checkout.{Shop, Prepared, prepare_checkout}

pub data Redirect : Type 0 where
  mock_page return_page : Redirect
  gateway : ℕ → Redirect

-- The answer to the creation of a payment, and the store when it comes: `not_sent` is a missing
-- configuration or a failed token request, `unreachable` a failed connection.
pub data Creation : Type 0 where
  not_sent unreachable : Creation
  refused : ℕ → Creation
  accepted_as : Option ℕ → Option ℕ → Creation

abbrev pub AskCreate : Type 0
AskCreate = Payment → Store → Creation × Store

abbrev unlinked : ℕ → Payment → Bool
unlinked i p = p.id == i && is_pending p.status && not (is_some p.provider_payment_id)

-- markGopayCreateUncertain, with the payload as it was read.
unfoldable pub mark_create_uncertain : ℕ → Payment → Store → Store
unfolding update_where
mark_create_uncertain now p s = record s {
  payments =
      update_where (unlinked p.id)
        (λ q. record q {
          payload = record p.payload { state = some create_uncertain };
          updated_at = now;
        })
        s.payments;
}

-- A payment at no charge is finalized at once; if that fails, it is FAILED and its cart CANCELED.
abbrev failed_at_no_charge : ℕ → Payment → Cart → Store → Store
failed_at_no_charge now p c s =
    let s' =
      write_payment now p.id (λ q. record q { status = failed; payload = empty_payload }) s in
    record s' {
      carts =
          update_where (λ x. x.id == c.id && in_checkout x.status)
            (λ x. record x { status = canceled_cart }) s'.carts;
    }

unfoldable pub buy_at_no_charge : Config → ℕ → Payment → Cart → Exec (ℕ × Redirect)
unfolding update_where
buy_at_no_charge cfg now p c s =
    elim (finalize_paid_payment cfg.year_of now p.id
      (record empty_payload { free_access = some (has_free_access p.payload) }) s) [
        | ok s' ↦ (ok (p.id, return_page), s')
        | throws e ↦ (throws e, failed_at_no_charge now p c s)
      ]

-- A status after which GoPay may still have taken the order.
abbrev may_have_accepted : ℕ → Bool
may_have_accepted code = leb 500 code || code == 408 || code == 409 || code == 425 || code == 429

unfoldable pub creation_failed : ℕ → Payment → Cart → Exec (ℕ × Redirect)
unfolding update_where reopen_cart_if_possible
creation_failed now p c s = (
  throws gopay_request_failed,
  reopen_cart_if_possible c.id p.user_id (
      write_payment now p.id
        (λ q. record q {
          status = failed;
          payload = record p.payload { state = some create_failed };
        })
        s),
)

abbrev keeps_waiting : ℕ → Payment → Exec (ℕ × Redirect)
keeps_waiting now p s = (ok (p.id, return_page), mark_create_uncertain now p s)

-- The link to GoPay's payment and the customer's way to it.
abbrev linked_as : ℕ → Payment → ℕ → ℕ → Exec (ℕ × Redirect)
linked_as now p i url s = (
  ok (p.id, gateway url),
  write_payment now p.id
      (λ q. record q {
        provider_payment_id = some (gopay_id i);
        payload = record p.payload { state = some gopay_created; gateway_url = some url };
      })
      s,
)

abbrev link_created : ℕ → Payment → Option ℕ → Option ℕ → Exec (ℕ × Redirect)
link_created now p (some i) (some url) =
    if i == 0 then keeps_waiting now p else linked_as now p i url
link_created now p _ _ = keeps_waiting now p

unfoldable pub after_creation : Config → ℕ → Payment → Cart → Creation → Exec (ℕ × Redirect)
unfolding mark_create_uncertain update_where
after_creation cfg now p c not_sent = creation_failed now p c
after_creation cfg now p c unreachable = keeps_waiting now p
after_creation cfg now p c (refused code) =
    if may_have_accepted code then keeps_waiting now p else creation_failed now p c
after_creation cfg now p c (accepted_as i url) = link_created now p i (safe_gateway_url cfg url)

abbrev gateway_or_return : Option ℕ → Redirect
gateway_or_return (some url) = gateway url
gateway_or_return none = return_page

-- Where the customer of a payment that is already there is sent.
unfoldable pub existing_redirect : Config → Payment → Redirect
existing_redirect cfg p = elim p.provider [
  | mock ↦ mock_page
  | manual ↦ return_page
  | _ ↦ gateway_or_return (safe_gateway_url cfg p.payload.gateway_url)
]

unfoldable pub buy : Config → ℕ → AskCreate → Payment → Cart → Exec (ℕ × Redirect)
buy cfg now ask p c s = elim p.provider [
  | manual ↦ buy_at_no_charge cfg now p c s
  | mock ↦ (ok (p.id, mock_page), s)
  | _ ↦ let (a, s') = ask p s in after_creation cfg now p c a s'
]

abbrev proceed : Config → ℕ → AskCreate → Prepared → Exec (ℕ × Redirect)
proceed cfg now ask r s =
    if r.existing
    then (ok (r.payment.id, existing_redirect cfg r.payment), s)
    else buy cfg now ask r.payment r.cart s

-- createCheckout.
unfoldable pub create_checkout : Config → Shop → ℕ → AskCreate → ℕ → ℕ → Bool → Exec (ℕ × Redirect)
unfolding buy existing_redirect
create_checkout cfg shop now ask user_id cart_id consent = do
  r ← committed (prepare_checkout shop now user_id cart_id consent)
  proceed cfg now ask r
