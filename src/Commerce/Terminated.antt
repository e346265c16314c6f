-- ===== src/Commerce/Terminated.antt =====
-- What cancelTerminalGopayPayment and recordGopayRefund guarantee.
use spottex_test.Common.{
  ℕ, ◌≡◌, refl, sym, ◌∙◌, ap, Bool, true, false, Option, none, some, arith, ◌==◌, ==_refl, ==→eq,
  subst, if◌then◌else◌, row, row_key, ok, Bool-cases, inl, inr, ◌⊎◌,
}
use spottex_test.Commerce.Model.{Payment, canceled, Payload}
use spottex_test.Commerce.Store.{
  Store, is_payable, is_settled, merge, find_payment, write_payment, find-write_payment,
}
use spottex_test.Commerce.Carts.{reopen_from_checkout}
use spottex_test.Commerce.OneOpen.{OneOpen, OwnedBy, reopen_from_checkout-OneOpen}
use spottex_test.Commerce.Terminal.{
  cancel_payable, cancel_terminal_payment, decline_renewal, release_cart,
}

decline_renewal-tables :
    (now : ℕ) (o : Option ℕ) (s : Store)
    → ((decline_renewal now o s).payments ≡ s.payments)
      × ((decline_renewal now o s).carts ≡ s.carts)
unfolding decline_renewal
decline_renewal-tables now none s = (refl, refl)
decline_renewal-tables now (some i) s = ground arith

release_cart-payments : (p : Payment) (s : Store) → (release_cart p s).payments ≡ s.payments
unfolding release_cart reopen_from_checkout
release_cart-payments p s = ground arith

abbrev canceled_row : ℕ → Payload → Payment → Store → Store
canceled_row now payload p s =
    write_payment now p.id (λ q. record q { status = canceled; payload = merge p.payload payload })
      s

cancel_payable-payments :
    (now : ℕ) (payload : Payload) (p : Payment) (s : Store)
    → (cancel_payable now payload p s).payments ≡ (canceled_row now payload p s).payments
unfolding cancel_payable
cancel_payable-payments now payload p s =
    release_cart-payments p (decline_renewal now p.renewal_id (canceled_row now payload p s))
    ∙ (decline_renewal-tables now p.renewal_id (canceled_row now payload p s)).0

find-cancel_payable :
    (now : ℕ) (payload : Payload) (p : Payment) (s : Store) (j : ℕ) (q : Payment)
    → find_payment j s ≡ some q
    → find_payment j (cancel_payable now payload p s)
      ≡ some (
          if q.id == p.id
          then record q { status = canceled; payload = merge p.payload payload; updated_at = now }
          else q)
find-cancel_payable now payload p s j q h =
    ap (row (λ x. x.id) j) (cancel_payable-payments now payload p s)
    ∙ find-write_payment now j p.id
        (λ q. record q { status = canceled; payload = merge p.payload payload }) s (λ x. refl) h

abbrev canceled_payment : ℕ → Payload → Payment → Payment
canceled_payment now payload p = record p {
  status = canceled;
  payload = merge p.payload payload;
  updated_at = now;
}

find_canceled :
    (now i : ℕ) (payload : Payload) (p : Payment) (s : Store)
    → find_payment i s ≡ some p
    → find_payment i (cancel_payable now payload p s) ≡ some (canceled_payment now payload p)
find_canceled now i payload p s h =
    find-cancel_payable now payload p s i p h ∙ ground (arith, ==_refl p.id)

-- A payable payment and a settled one stand in different rows.
other_row :
    (i j : ℕ) (s : Store) (p q : Payment)
    → find_payment i s ≡ some p
    → find_payment j s ≡ some q
    → is_payable p.status ≡ true
    → is_settled q.status ≡ true
    → (q.id == p.id) ≡ false
other_row i j s p q found at due settled = elim (Bool-cases (q.id == p.id)) [
  | inr differ ↦ differ
  | inl same ↦
      let e : j ≡ i =
        sym (row_key (λ x. x.id) j s.payments at)
        ∙ ==→eq q.id p.id same
        ∙ row_key (λ x. x.id) i s.payments found in
      let same_row : some q ≡ some p = sym at ∙ ap (λ k. find_payment k s) e ∙ found in ground arith
]

cancels :
    (now id : ℕ) (payload : Payload) (s s' : Store) (changed : Bool) (p : Payment)
    → find_payment id s ≡ some p
    → cancel_terminal_payment now id payload s ≡ ok (changed, s')
    → ((is_payable p.status ≡ true) × (changed ≡ true) × (s' ≡ cancel_payable now payload p s))
      ⊎ ((is_payable p.status ≡ false) × (changed ≡ false) × (s' ≡ s))
unfolding cancel_terminal_payment
cancels now id payload s s' changed p found h = ground arith

release_cart-OneOpen :
    (p : Payment) (s : Store) (c : ℕ)
    → p.cart_id ≡ some c
    → OwnedBy p.user_id c s.carts
    → OneOpen s.carts
    → OneOpen (release_cart p s).carts
unfolding release_cart
release_cart-OneOpen p s c has own one = rw has (reopen_from_checkout-OneOpen c p.user_id s one own)

cancel_payable-OneOpen :
    (now : ℕ) (payload : Payload) (p : Payment) (s : Store) (c : ℕ)
    → p.cart_id ≡ some c
    → OwnedBy p.user_id c s.carts
    → OneOpen s.carts
    → OneOpen (cancel_payable now payload p s).carts
unfolding cancel_payable
cancel_payable-OneOpen now payload p s c has own one =
    let d = decline_renewal now p.renewal_id (canceled_row now payload p s) in
    let e = (decline_renewal-tables now p.renewal_id (canceled_row now payload p s)).1 in
    release_cart-OneOpen p d c has (subst (OwnedBy p.user_id c) (sym e) own)
      (subst OneOpen (sym e) one)

-- The two outcomes of a cancellation.
abbrev pub Canceled : ℕ → Payment → Bool → Store → Store → Type 0
Canceled id p changed s s' =
    ((changed ≡ false) × (is_payable p.status ≡ false) × (s' ≡ s))
    ⊎ ((changed ≡ true)
        × (is_payable p.status ≡ true)
        × (q : Payment) × (find_payment id s' ≡ some q)
        × (q.status ≡ canceled)
        × (q.amount_minor ≡ p.amount_minor))

-- Cancelling a payment that exists: one that is CREATED or PENDING becomes CANCELED at its amount, one
-- in any other status leaves the whole store as it is; the result says which.
pub cancel_outcome :
    (now id : ℕ) (payload : Payload) (s s' : Store) (changed : Bool) (p : Payment)
    → find_payment id s ≡ some p
    → cancel_terminal_payment now id payload s ≡ ok (changed, s')
    → Canceled id p changed s s'
cancel_outcome now id payload s s' changed p found h =
    elim (cancels now id payload s s' changed p found h) [
      | inl (due, yes', e) ↦ inr (
        yes',
        due,
        canceled_payment now payload p,
        ap (find_payment id) e ∙ find_canceled now id payload p s found,
        refl,
        refl,
      )
      | inr (over, no', e) ↦ inl (no', over, e)
    ]

-- A cancellation never touches a payment that is PAID or REFUNDED.
pub cancel_keeps_settled :
    (now id : ℕ) (payload : Payload) (s s' : Store) (changed : Bool) (p : Payment) (j : ℕ)
    (q : Payment)
    → find_payment id s ≡ some p
    → find_payment j s ≡ some q
    → is_settled q.status ≡ true
    → cancel_terminal_payment now id payload s ≡ ok (changed, s')
    → find_payment j s' ≡ some q
cancel_keeps_settled now id payload s s' changed p j q found at settled h =
    elim (cancels now id payload s s' changed p found h) [
      | inl (due, _, e) ↦
          ap (find_payment j) e
          ∙ find-cancel_payable now payload p s j q at
          ∙ rw (other_row id j s p q found at due settled) refl
      | inr (_, _, e) ↦ ap (find_payment j) e ∙ at
    ]

-- A cancellation keeps at most one open cart to a user, if the payment's cart is the user's own.
pub cancel-OneOpen :
    (now id : ℕ) (payload : Payload) (s s' : Store) (changed : Bool) (p : Payment) (c : ℕ)
    → find_payment id s ≡ some p
    → p.cart_id ≡ some c
    → OwnedBy p.user_id c s.carts
    → OneOpen s.carts
    → cancel_terminal_payment now id payload s ≡ ok (changed, s')
    → OneOpen s'.carts
cancel-OneOpen now id payload s s' changed p c found has own one h =
    elim (cancels now id payload s s' changed p found h) [
      | inl (_, _, e) ↦
          subst (λ x. OneOpen x.carts) (sym e)
            (cancel_payable-OneOpen now payload p s c has own one)
      | inr (_, _, e) ↦ subst (λ x. OneOpen x.carts) (sym e) one
    ]
