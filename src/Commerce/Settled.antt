-- ===== src/Commerce/Settled.antt =====
-- What finalizePaidPayment guarantees: the payment and its cart are settled together, at the price of
-- the cart, and a second run changes nothing.
use spottex_test.Common.{
  ℕ, ◌≡◌, refl, sym, ◌∙◌, ap, true, false, Option, none, some, arith, ==_refl, row, row_key,
  Bool-cases, inl, inr, ok, >>=-eq-ok, or_throw-eq-ok, or_throw,
}
use spottex_test.Jobs.Model.{has_mail, payment_confirmation}
use spottex_test.Commerce.Model.{Cart, Payload, Payment, PaymentStatus, paid, paid_cart, checkout}
use spottex_test.Commerce.Store.{
  Store, payment_not_found, is_paid, merge, find_payment, find_cart, write_payment,
  find-write_payment, find-write_cart,
}
use spottex_test.Commerce.Settle.{joined_cart, cart_of, check_cart, expected_total, settle}
use spottex_test.Commerce.Finalize.{confirm, finalize_paid_payment}
use spottex_test.Commerce.Steps.{
  Fulfilled, fulfil-Fulfilled, check_run-SameTables, accept_offer-SameTables, check_trials-eq,
  queue_analysis-SameTables, grant_mandate-SameTables, grant_mandate-SamePayment,
}
use spottex_test.Commerce.Delivery.{
  deliver-SameMoney, has_mail-deliver, confirm_again, has_mail-confirm, confirm-SameMoney,
}

-- A run that returns on a payment that is not PAID went through every step.
pub finalize-Fulfilled :
    (year_of : ℕ → ℕ) (now i : ℕ) (payload : Payload) (s s' : Store) (p : Payment)
    → find_payment i s ≡ some p
    → is_paid p.status ≡ false
    → finalize_paid_payment year_of now i payload s ≡ ok s'
    → Fulfilled year_of now payload p s s'
unfolding finalize_paid_payment
finalize-Fulfilled year_of now i payload s s' p found unpaid h =
    fulfil-Fulfilled year_of now payload p s s' (rw (found, unpaid) at h)

found_by_own_id :
    (o : Option ℕ) (s : Store) (c : Cart) → joined_cart o s ≡ some c → find_cart c.id s ≡ some c
found_by_own_id none s c h = cc
found_by_own_id (some i) s c h =
    ap (λ k. row (λ x. x.id) k s.carts) (row_key (λ x. x.id) i s.carts h) ∙ h

pub cart_found :
    (p : Payment) (s : Store) (c : Cart) → cart_of p s ≡ some c → find_cart c.id s ≡ some c
cart_found p s c h = found_by_own_id p.cart_id s c h

check_cart_lem :
    (p : Payment) (c : Cart)
    → check_cart p c ≡ ok c
    → (c.status ≡ checkout)
      × (p.amount_minor ≡ expected_total p c)
      × (c.total_minor ≡ p.amount_minor)
unfolding check_cart
check_cart_lem p c h = ground arith

-- The outcome of a first settlement.
pub record Settled (now : ℕ) (p : Payment) (s s' : Store) : Type 0 where
  pub cart : Cart
  pub was_cart : cart_of p s ≡ some cart
  pub was_checkout : cart.status ≡ checkout
  pub priced : p.amount_minor ≡ expected_total p cart
  pub payment' : Payment
  pub found' : find_payment p.id s' ≡ some payment'
  pub is_paid' : payment'.status ≡ paid
  pub paid_at' : payment'.paid_at ≡ some now
  pub same_amount : payment'.amount_minor ≡ p.amount_minor
  pub same_id : payment'.id ≡ p.id
  pub cart' : Cart
  pub cart_found' : find_cart cart.id s' ≡ some cart'
  pub is_paid_cart : cart'.status ≡ paid_cart

settle-payment :
    (now : ℕ) (payload : Payload) (p : Payment) (c : Cart) (s : Store)
    → find_payment p.id s ≡ some p
    → find_payment p.id (settle now payload p c s)
      ≡ some (record p {
        status = paid;
        paid_at = some now;
        payload = merge p.payload payload;
        updated_at = now;
      })
unfolding settle
settle-payment now payload p c s h =
    find-write_payment now p.id p.id
      (λ q. record q { status = paid; paid_at = some now; payload = merge p.payload payload }) s
      (λ q. refl) h
    ∙ ground (arith, ==_refl p.id)

settle-cart :
    (now : ℕ) (payload : Payload) (p : Payment) (c : Cart) (s : Store)
    → find_cart c.id s ≡ some c
    → find_cart c.id (settle now payload p c s) ≡ some (record c { status = paid_cart })
unfolding settle
settle-cart now payload p c s h =
    find-write_cart c.id c.id (λ x. record x { status = paid_cart })
      (write_payment now p.id
        (λ q. record q { status = paid; paid_at = some now; payload = merge p.payload payload }) s)
      (λ x. refl) h
    ∙ ground (arith, ==_refl c.id)

Fulfilled-Settled :
    (year_of : ℕ → ℕ) (now : ℕ) (payload : Payload) (p : Payment) (s s' : Store)
    → find_payment p.id s ≡ some p
    → Fulfilled year_of now payload p s s'
    → Settled now p s s'
Fulfilled-Settled year_of now payload p s s' found f =
    let c = f.cart in
    let e₁ : f.checked ≡ s = check_run-SameTables p s f.checked f.run_ok in
    let (t₂, m₂) = accept_offer-SameTables now p f.checked f.offered f.offer_ok in
    let e₃ : f.tried ≡ f.offered = check_trials-eq p c.items f.offered f.tried f.trial_ok in
    let st = settle now payload p c f.tried in
    let (t₄, m₄) = queue_analysis-SameTables now p st f.queued f.queue_ok in
    let t₅ = grant_mandate-SameTables now p f.queued f.mandate f.granted f.grant_ok in
    let d = deliver-SameMoney year_of now p c f.mandate f.granted in
    let payments₀ : f.tried.payments ≡ s.payments =
      ap (λ x. x.payments) e₃ ∙ m₂ ∙ ap (λ x. x.payments) e₁ in
    let carts₀ : f.tried.carts ≡ s.carts = ap (λ x. x.carts) e₃ ∙ t₂.carts ∙ ap (λ x. x.carts) e₁ in
    let paid₁ =
      settle-payment now payload p c f.tried (ap (row (λ x. x.id) p.id) payments₀ ∙ found) in
    let cart₁ =
      settle-cart now payload p c f.tried
        (ap (row (λ x. x.id) c.id) carts₀ ∙ cart_found p s c f.found) in
    let (q, at_q, same) =
      grant_mandate-SamePayment now p f.queued f.mandate f.granted p.id _ f.grant_ok
        (ap (row (λ x. x.id) p.id) m₄ ∙ paid₁) in
    let ok_cart = check_cart_lem p c f.in_time in
    record {
      cart = c;
      was_cart = f.found;
      was_checkout = ok_cart.0;
      priced = ok_cart.1;
      payment' = q;
      found' = ap (find_payment p.id) f.result ∙ ap (row (λ x. x.id) p.id) d.payments ∙ at_q;
      is_paid' = same.status;
      paid_at' = same.paid_at;
      same_amount = same.amount_minor;
      same_id = same.id;
      cart' = _;
      cart_found' =
          ap (find_cart c.id) f.result
          ∙ ap (row (λ x. x.id) c.id) (d.carts ∙ t₅.carts ∙ t₄.carts)
          ∙ cart₁;
      is_paid_cart = refl;
    }

own_row :
    (i : ℕ) (s : Store) (p : Payment) → find_payment i s ≡ some p → find_payment p.id s ≡ some p
own_row i s p h = ap (λ k. find_payment k s) (row_key (λ x. x.id) i s.payments h) ∙ h

-- A run of finalizePaidPayment that returns on a payment that was not PAID found its cart in
-- CHECKOUT, at the price that the payment was made for (the sum over the items, or 0 under free
-- access); it leaves the payment PAID at the given time with its amount, and the cart PAID.
pub finalize_settles :
    (year_of : ℕ → ℕ) (now i : ℕ) (payload : Payload) (s s' : Store) (p : Payment)
    → find_payment i s ≡ some p
    → is_paid p.status ≡ false
    → finalize_paid_payment year_of now i payload s ≡ ok s'
    → Settled now p s s'
finalize_settles year_of now i payload s s' p found unpaid h =
    Fulfilled-Settled year_of now payload p s s' (own_row i s p found)
      (finalize-Fulfilled year_of now i payload s s' p found unpaid h)

pub finalize_paid :
    (year_of : ℕ → ℕ) (now i : ℕ) (payload : Payload) (s : Store) (p : Payment)
    → find_payment i s ≡ some p
    → p.status ≡ paid
    → finalize_paid_payment year_of now i payload s ≡ ok (confirm now p s)
unfolding finalize_paid_payment
finalize_paid year_of now i payload s p found h = rw (found, h)

finalize_again :
    (year_of : ℕ → ℕ) (now i : ℕ) (payload : Payload) (s : Store) (q : Payment)
    → find_payment i s ≡ some q
    → q.status ≡ paid
    → has_mail (payment_confirmation q.id) s.outbox ≡ true
    → finalize_paid_payment year_of now i payload s ≡ ok s
finalize_again year_of now i payload s q found h mail =
    finalize_paid year_of now i payload s q found h ∙ ap ok (confirm_again now q s mail)

Fulfilled-mail :
    (year_of : ℕ → ℕ) (now : ℕ) (payload : Payload) (p : Payment) (s s' : Store)
    → Fulfilled year_of now payload p s s'
    → has_mail (payment_confirmation p.id) s'.outbox ≡ true
Fulfilled-mail year_of now payload p s s' f =
    ap (λ x. has_mail (payment_confirmation p.id) x.outbox) f.result
    ∙ has_mail-deliver year_of now p f.cart f.mandate f.granted

-- A run on a payment that is PAID writes at most the confirmation mail.
again_paid :
    (year_of : ℕ → ℕ) (now later i : ℕ) (payload again : Payload) (s s' : Store) (p : Payment)
    → find_payment i s ≡ some p
    → p.status ≡ paid
    → finalize_paid_payment year_of now i payload s ≡ ok s'
    → finalize_paid_payment year_of later i again s' ≡ ok s'
again_paid year_of now later i payload again s s' p found h e =
    let e' : s' ≡ confirm now p s = cc (finalize_paid year_of now i payload s p found h) in
    finalize_again year_of later i again s' p
      (ap (find_payment i) e' ∙ ap (row (λ x. x.id) i) (confirm-SameMoney now p s).payments ∙ found)
      h (ap (λ x. has_mail (payment_confirmation p.id) x.outbox) e' ∙ has_mail-confirm now p s)

again_unpaid :
    (year_of : ℕ → ℕ) (now later i : ℕ) (payload again : Payload) (s s' : Store) (p : Payment)
    → find_payment i s ≡ some p
    → is_paid p.status ≡ false
    → finalize_paid_payment year_of now i payload s ≡ ok s'
    → finalize_paid_payment year_of later i again s' ≡ ok s'
again_unpaid year_of now later i payload again s s' p found h e =
    let f = finalize-Fulfilled year_of now i payload s s' p found h e in
    let t = finalize_settles year_of now i payload s s' p found h e in
    finalize_again year_of later i again s' t.payment'
      (ap (λ k. find_payment k s') (sym (row_key (λ x. x.id) i s.payments found)) ∙ t.found')
      t.is_paid'
      (ap (λ k. has_mail (payment_confirmation k) s'.outbox) t.same_id
        ∙ Fulfilled-mail year_of now payload p s s' f)

pub finalize_found :
    (year_of : ℕ → ℕ) (now i : ℕ) (payload : Payload) (s s' : Store)
    → finalize_paid_payment year_of now i payload s ≡ ok s'
    → (p : Payment) × (find_payment i s ≡ some p) × (p.id ≡ i)
unfolding finalize_paid_payment
finalize_found year_of now i payload s s' h =
    let (p, found, _) = >>=-eq-ok (or_throw (find_payment i s) payment_not_found) _ h in
    let e = or_throw-eq-ok (find_payment i s) payment_not_found found in
    (p, e, row_key (λ x. x.id) i s.payments e)

pub is_paid_only : (x : PaymentStatus) → is_paid x ≡ true → x ≡ paid
is_paid_only x h = ground arith

-- Finalizing is idempotent: after a run that returned, a second run for the same payment, whenever it
-- comes and whatever payload it brings, returns and leaves the whole store as it is.
pub finalize_idempotent :
    (year_of : ℕ → ℕ) (now later i : ℕ) (payload again : Payload) (s s' : Store)
    → finalize_paid_payment year_of now i payload s ≡ ok s'
    → finalize_paid_payment year_of later i again s' ≡ ok s'
finalize_idempotent year_of now later i payload again s s' h =
    let (p, found, _) = finalize_found year_of now i payload s s' h in
    elim (Bool-cases (is_paid p.status)) [
      | inl done ↦
          again_paid year_of now later i payload again s s' p found (is_paid_only p.status done) h
      | inr due ↦ again_unpaid year_of now later i payload again s s' p found due h
    ]
