-- ===== src/Commerce/CheckedOut.antt =====
-- What the transaction of createCheckout guarantees: the payment that it makes can be settled, and a
-- cart gets one payment.
use spottex_test.Common.{
  ℕ, ◌≡◌, ◌⊎◌, ◌==◌, ==_refl, refl, ap, ◌∙◌, Bool, true, false, Bool-cases, Option-cases, none,
  some, inl, inr, List, [], ◌∷◌, ◌++◌, find_first, find_last, row, row_key, row-update_where, ok,
  arith,
}
use spottex_test.Commerce.Model.{Cart, checkout, Payment}
use spottex_test.Commerce.Store.{Store, find_cart, items_total}
use spottex_test.Commerce.Settle.{cart_of, check_cart, expected_total}
use spottex_test.Commerce.Checkout.{
  Shop, Prepared, claim_cart, checkoutable, payable_for, checkout_payment, charged_total,
  prepare_with, prepare_checkout,
}

module _ {ℓ} {A : Type ℓ} where
  find_last-append :
      (q : A → Bool) (t : List A) (x : A) → q x ≡ true → find_last q (t ++ x ∷ []) ≡ some x
  unfolding find_last
  find_last-append q [] x h = rw h refl
  find_last-append q (y ∷ ys) x h = rw (find_last-append q ys x h) refl

-- The cart with the id is the one that the checkout finds.
finds_cart :
    (user_id cart_id : ℕ) (cs : List Cart) (c : Cart)
    → row (λ x. x.id) cart_id cs ≡ some c
    → checkoutable user_id cart_id c ≡ true
    → find_first (checkoutable user_id cart_id) cs ≡ some c
unfolding find_first
finds_cart user_id cart_id [] c h e = cc
finds_cart user_id cart_id (x ∷ cs) c h e = ground (arith, finds_cart user_id cart_id cs c)

prepares_found :
    (shop : Shop) (now user_id cart_id : ℕ) (consent : Bool) (s s' : Store) (c : Cart)
    (r : Prepared)
    → find_first (checkoutable user_id cart_id) s.carts ≡ some c
    → prepare_checkout shop now user_id cart_id consent s ≡ ok (r, s')
    → prepare_with shop now consent c s ≡ ok (r, s')
unfolding prepare_checkout
prepares_found shop now user_id cart_id consent s s' c r found h = ground arith

prepares_new :
    (shop : Shop) (now : ℕ) (consent : Bool) (s s' : Store) (c : Cart) (r : Prepared)
    → prepare_with shop now consent c s ≡ ok (r, s')
    → r.existing ≡ false
    → (r.payment ≡ checkout_payment shop now consent c s.next_id)
      × (s' ≡ (claim_cart shop now consent c s).1)
unfolding prepare_with claim_cart
prepares_new shop now consent s s' c r h e = ground arith

abbrev claimed_cart : Shop → Cart → Cart
claimed_cart shop c = record c { status = checkout; total_minor = charged_total shop c }

finds_claimed :
    (shop : Shop) (now : ℕ) (consent : Bool) (s : Store) (c : Cart) (i : ℕ)
    → find_cart i s ≡ some c
    → (i == c.id) ≡ true
    → find_cart i (claim_cart shop now consent c s).1 ≡ some (claimed_cart shop c)
unfolding claim_cart
finds_claimed shop now consent s c i found e =
    row-update_where (λ x. x.id) (λ x. x.id == c.id)
      (λ x. record x { status = checkout; total_minor = charged_total shop c }) (λ x. refl) i
      s.carts
    ∙ rw found (ground (arith, ==_refl c.id))

accepts :
    (shop : Shop) (now : ℕ) (consent : Bool) (c : Cart) (i : ℕ)
    → check_cart (checkout_payment shop now consent c i) (claimed_cart shop c)
      ≡ ok (claimed_cart shop c)
unfolding check_cart expected_total
accepts shop now consent c i = elim (Bool-cases shop.free_access) [
  | inl e ↦ rw e refl
  | inr e ↦ rw (e, ==_refl (items_total c.items)) refl
]

-- A new payment can be settled: for a cart of the user that is OPEN or in CHECKOUT, if the transaction
-- makes a payment, then the payment's cart passes the check of finalizePaidPayment, its status and all
-- three totals included.
pub prepare-check_cart :
    (shop : Shop) (now user_id cart_id : ℕ) (consent : Bool) (s s' : Store) (c : Cart)
    (r : Prepared)
    → find_cart cart_id s ≡ some c
    → checkoutable user_id cart_id c ≡ true
    → prepare_checkout shop now user_id cart_id consent s ≡ ok (r, s')
    → r.existing ≡ false
    → (c' : Cart) × (cart_of r.payment s' ≡ some c') × (check_cart r.payment c' ≡ ok c')
prepare-check_cart shop now user_id cart_id consent s s' c r found own h e =
    let w =
      prepares_found shop now user_id cart_id consent s s' c r
        (finds_cart user_id cart_id s.carts c found own) h in
    let (new, e') = prepares_new shop now consent s s' c r w e in
    (
      claimed_cart shop c,
      rw (new, e')
          (finds_claimed shop now consent s c c.id
            (ap (λ i. find_cart i s) (row_key (λ x. x.id) cart_id s.carts found) ∙ found)
            (==_refl c.id)),
      rw new (accepts shop now consent c s.next_id),
    )

prepares_existing :
    (shop : Shop) (now : ℕ) (consent : Bool) (s s' : Store) (c : Cart) (r : Prepared) (p : Payment)
    → find_last (payable_for c.id) s.payments ≡ some p
    → prepare_with shop now consent c s ≡ ok (r, s')
    → (r.payment ≡ p) × (s' ≡ s)
unfolding prepare_with
prepares_existing shop now consent s s' c r p e h = ground arith

not_existing :
    (shop : Shop) (now : ℕ) (consent : Bool) (s s' : Store) (c : Cart) (r : Prepared)
    → find_last (payable_for c.id) s.payments ≡ none
    → prepare_with shop now consent c s ≡ ok (r, s')
    → r.existing ≡ false
unfolding prepare_with
not_existing shop now consent s s' c r e h = ground arith

appended :
    (shop : Shop) (now : ℕ) (consent : Bool) (s : Store) (c : Cart)
    → find_last (payable_for c.id) (claim_cart shop now consent c s).1.payments
      ≡ some (checkout_payment shop now consent c s.next_id)
unfolding claim_cart
appended shop now consent s c =
    find_last-append (payable_for c.id) s.payments (checkout_payment shop now consent c s.next_id)
      (rw (==_refl c.id) refl)

-- The two outcomes for the tables of payments and carts.
payable_after :
    (shop : Shop) (now : ℕ) (consent : Bool) (s s' : Store) (c : Cart) (r : Prepared) (i : ℕ)
    → find_cart i s ≡ some c
    → (i == c.id) ≡ true
    → prepare_with shop now consent c s ≡ ok (r, s')
    → (find_last (payable_for c.id) s'.payments ≡ some r.payment)
      × ((find_cart i s' ≡ some c) ⊎ (find_cart i s' ≡ some (claimed_cart shop c)))
payable_after shop now consent s s' c r i found here h =
    elim (Option-cases (find_last (payable_for c.id) s.payments)) [
      | inr (p, at_p) ↦
          let (same, stays) = prepares_existing shop now consent s s' c r p at_p h in
          (rw (stays, same) at_p, inl (rw stays found))
      | inl e ↦
          let (new, e₁) =
            prepares_new shop now consent s s' c r h (not_existing shop now consent s s' c r e h) in
          (
            rw (new, e₁) (appended shop now consent s c),
            inr (rw e₁ (finds_claimed shop now consent s c i found here)),
          )
    ]

prepares_again :
    (shop : Shop) (now later user_id cart_id : ℕ) (consent again : Bool) (s s' : Store)
    (c c' : Cart) (r : Prepared) (p : Payment)
    → find_first (checkoutable user_id cart_id) s.carts ≡ some c
    → prepare_checkout shop now user_id cart_id consent s ≡ ok (r, s')
    → find_first (checkoutable user_id cart_id) s'.carts ≡ some c'
    → c'.items ≡ c.items
    → find_last (payable_for c'.id) s'.payments ≡ some p
    → prepare_checkout shop later user_id cart_id again s'
      ≡ ok (record { cart = c'; payment = p; existing = true }, s')
unfolding prepare_checkout prepare_with
prepares_again shop now later user_id cart_id consent again s s' c c' r p f h f' same at_p =
    ground arith

-- A cart gets one payment: for a cart of the user that is OPEN or in CHECKOUT, once the transaction has
-- returned, the same call at any later time, with consent or without, returns the same payment as an
-- existing one and leaves the whole store as it is.
pub prepare-prepare :
    (shop : Shop) (now later user_id cart_id : ℕ) (consent again : Bool) (s s' : Store) (c : Cart)
    (r : Prepared)
    → find_cart cart_id s ≡ some c
    → checkoutable user_id cart_id c ≡ true
    → prepare_checkout shop now user_id cart_id consent s ≡ ok (r, s')
    → (c' : Cart) × (prepare_checkout shop later user_id cart_id again s'
        ≡ ok (record { cart = c'; payment = r.payment; existing = true }, s'))
prepare-prepare shop now later user_id cart_id consent again s s' c r found own h =
    let f = finds_cart user_id cart_id s.carts c found own in
    let same = row_key (λ x. x.id) cart_id s.carts found in
    let (at_p, cases) =
      payable_after shop now consent s s' c r cart_id found (rw same (==_refl cart_id))
        (prepares_found shop now user_id cart_id consent s s' c r f h) in
    elim cases [
      | inl e ↦ (
        c,
        prepares_again shop now later user_id cart_id consent again s s' c c r r.payment f h
            (finds_cart user_id cart_id s'.carts c e own) refl at_p,
      )
      | inr e ↦ (
        claimed_cart shop c,
        prepares_again shop now later user_id cart_id consent again s s' c (claimed_cart shop c) r
            r.payment f h
            (finds_cart user_id cart_id s'.carts (claimed_cart shop c) e (ground arith)) refl at_p,
      )
    ]
