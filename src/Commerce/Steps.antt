-- ===== src/Commerce/Steps.antt =====
-- finalizePaidPayment taken apart: the intermediate stores of a run that returns, and what each step
-- leaves alone.
use spottex_test.Common.{
  ℕ, ◌≡◌, refl, Option, some, arith, ok, >>=-eq-ok, or_throw-eq-ok, inl, inr, or_throw, ap, ◌∙◌,
  row, List, [], ◌∷◌, ◌⊎◌,
}
use spottex_test.Commerce.Model.{Cart, CartItem, Payload, Payment}
use spottex_test.Commerce.Store.{
  Store, payment_without_cart, write_payment, find_payment, find-write_payment,
}
use spottex_test.Commerce.Settle.{
  cart_of, check_cart, check_run, accept_offer, check_trials, settle, queue_analysis,
}
use spottex_test.Commerce.Grant.{grant_mandate}
use spottex_test.Commerce.Finalize.{deliver, fulfil}

-- The stores between the steps of `fulfil`.
pub record Fulfilled (year_of : ℕ → ℕ) (now : ℕ) (payload : Payload) (p : Payment) (s s' : Store)
    : Type 0 where
  pub cart : Cart
  pub mandate : Option ℕ
  pub checked : Store
  pub offered : Store
  pub tried : Store
  pub queued : Store
  pub granted : Store
  pub found : cart_of p s ≡ some cart
  pub in_time : check_cart p cart ≡ ok cart
  pub run_ok : check_run p s ≡ ok checked
  pub offer_ok : accept_offer now p checked ≡ ok offered
  pub trial_ok : check_trials p cart.items offered ≡ ok tried
  pub queue_ok : queue_analysis now p (settle now payload p cart tried) ≡ ok queued
  pub grant_ok : grant_mandate now p queued ≡ ok (mandate, granted)
  pub result : s' ≡ deliver year_of now p cart mandate granted

check_cart-eq : (p : Payment) (c d : Cart) → check_cart p c ≡ ok d → d ≡ c
unfolding check_cart
check_cart-eq p c d h = ground arith

pub fulfil-Fulfilled :
    (year_of : ℕ → ℕ) (now : ℕ) (payload : Payload) (p : Payment) (s s' : Store)
    → fulfil year_of now payload p s ≡ ok s'
    → Fulfilled year_of now payload p s s'
unfolding fulfil
fulfil-Fulfilled year_of now payload p s s' h =
    let (c, found, h₁) = >>=-eq-ok (or_throw (cart_of p s) payment_without_cart) _ h in
    let (d, checked, h₂) = >>=-eq-ok (check_cart p c) _ h₁ in
    let (s₁, ran, h₃) = >>=-eq-ok (check_run p s) _ h₂ in
    let (s₂, offer, h₄) = >>=-eq-ok (accept_offer now p s₁) _ h₃ in
    let (s₃, tried, h₅) = >>=-eq-ok (check_trials p d.items s₂) _ h₄ in
    let (s₄, queue, h₆) = >>=-eq-ok (queue_analysis now p (settle now payload p d s₃)) _ h₅ in
    let (g, grant, h₇) = >>=-eq-ok (grant_mandate now p s₄) _ h₆ in
    let e : d ≡ c = check_cart-eq p c d checked in
    record {
      cart = d;
      mandate = g.0;
      checked = s₁;
      offered = s₂;
      tried = s₃;
      queued = s₄;
      granted = g.1;
      found = rw e (or_throw-eq-ok (cart_of p s) payment_without_cart found);
      in_time = cc;
      run_ok = ran;
      offer_ok = offer;
      trial_ok = tried;
      queue_ok = queue;
      grant_ok = grant;
      result = cc;
    }

-- The tables that the guards and the granting of a mandate leave alone.
pub record SameTables (s s' : Store) : Type 0 where
  pub carts : s'.carts ≡ s.carts
  pub subscriptions : s'.subscriptions ≡ s.subscriptions
  pub invoices : s'.invoices ≡ s.invoices
  pub counters : s'.counters ≡ s.counters
  pub outbox : s'.outbox ≡ s.outbox

pub check_run-SameTables : (p : Payment) (s s' : Store) → check_run p s ≡ ok s' → s' ≡ s
unfolding check_run
check_run-SameTables p s s' h = ground arith

pub accept_offer-SameTables :
    (now : ℕ) (p : Payment) (s s' : Store)
    → accept_offer now p s ≡ ok s'
    → SameTables s s' × (s'.payments ≡ s.payments)
unfolding accept_offer
accept_offer-SameTables now p s s' h = ground arith

pub check_trials-eq :
    (p : Payment) (is : List CartItem) (s s' : Store) → check_trials p is s ≡ ok s' → s' ≡ s
unfolding check_trials
check_trials-eq p [] s s' h = ground arith
check_trials-eq p (i ∷ is) s s' h = ground (arith, check_trials-eq p is s s')

pub queue_analysis-SameTables :
    (now : ℕ) (p : Payment) (s s' : Store)
    → queue_analysis now p s ≡ ok s'
    → SameTables s s' × (s'.payments ≡ s.payments)
unfolding queue_analysis
queue_analysis-SameTables now p s s' h = ground arith

pub grant_mandate-SameTables :
    (now : ℕ) (p : Payment) (s : Store) (m : Option ℕ) (s' : Store)
    → grant_mandate now p s ≡ ok (m, s')
    → SameTables s s'
unfolding grant_mandate
grant_mandate-SameTables now p s m s' h = ground arith

-- A payment that differs in its link to a mandate and its time stamp alone.
pub record SamePayment (q q' : Payment) : Type 0 where
  pub id : q'.id ≡ q.id
  pub status : q'.status ≡ q.status
  pub amount_minor : q'.amount_minor ≡ q.amount_minor
  pub user_id : q'.user_id ≡ q.user_id
  pub cart_id : q'.cart_id ≡ q.cart_id
  pub paid_at : q'.paid_at ≡ q.paid_at

pub grant_mandate-payments :
    (now : ℕ) (p : Payment) (s : Store) (m : Option ℕ) (s' : Store)
    → grant_mandate now p s ≡ ok (m, s')
    → (s'.payments ≡ s.payments)
      ⊎ (s'.payments ≡ (write_payment now p.id (λ q. record q { mandate_id = m }) s).payments)
unfolding grant_mandate
grant_mandate-payments now p s m s' h = ground arith

pub grant_mandate-SamePayment :
    (now : ℕ) (p : Payment) (s : Store) (m : Option ℕ) (s' : Store) (i : ℕ) (q : Payment)
    → grant_mandate now p s ≡ ok (m, s')
    → find_payment i s ≡ some q
    → (q' : Payment) × (find_payment i s' ≡ some q') × SamePayment q q'
grant_mandate-SamePayment now p s m s' i q h e = elim (grant_mandate-payments now p s m s' h) [
  | inl same ↦ (
    q,
    ap (row (λ x. x.id) i) same ∙ e,
    record {
      id = refl;
      status = refl;
      amount_minor = refl;
      user_id = refl;
      cart_id = refl;
      paid_at = refl;
    },
  )
  | inr wrote ↦ (
    _,
    ap (row (λ x. x.id) i) wrote
        ∙ find-write_payment now i p.id (λ q. record q { mandate_id = m }) s (λ x. refl) e,
    ground arith,
  )
]
