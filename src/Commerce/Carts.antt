-- ===== src/Commerce/Carts.antt =====
-- src/lib/commerce/cart.ts and reopenCartIfPossible of payment.ts: a user has at most one open cart.
use spottex_test.Common.{
  ℕ, suc, Bool, false, ◌&&◌, ◌||◌, not, none, some, List, [], ◌∷◌, ◌++◌, ◌==◌, if◌then◌else◌,
  find_first, find_last, update_where, Result, ok, throws,
}
use spottex_test.Commerce.Model.{Cart, CartStatus, open_cart, canceled_cart}
use spottex_test.Commerce.Store.{
  Store, CommerceError, cart_not_open, is_open, in_checkout, items_total, find_cart, write_cart,
}

-- `cart.findFirst({ where: { userId, status: "OPEN", id: { not: cartId } } })` finds a row.
unfoldable pub another_open : ℕ → ℕ → List Cart → Bool
another_open user_id cart_id [] = false
another_open user_id cart_id (c ∷ cs) =
    (c.user_id == user_id && is_open c.status && not (c.id == cart_id))
    || another_open user_id cart_id cs

-- `anotherOpen ? "CANCELED" : "OPEN"`.
abbrev pub reopened_status : ℕ → ℕ → Store → CartStatus
reopened_status user_id cart_id s =
    if another_open user_id cart_id s.carts then canceled_cart else open_cart

-- reopenCartIfPossible: whatever the cart's status is.
unfoldable pub reopen_cart_if_possible : ℕ → ℕ → Store → Store
unfolding another_open update_where
reopen_cart_if_possible cart_id user_id s =
    write_cart cart_id (λ c. record c { status = reopened_status user_id cart_id s }) s

-- The same for a cart that is still in CHECKOUT (cancelTerminalGopayPayment).
unfoldable pub reopen_from_checkout : ℕ → ℕ → Store → Store
unfolding another_open update_where
reopen_from_checkout cart_id user_id s = record s {
  carts =
      update_where (λ c. c.id == cart_id && in_checkout c.status)
        (λ c. record c { status = reopened_status user_id cart_id s }) s.carts;
}

abbrev pub open_of : ℕ → Cart → Bool
open_of user_id c = c.user_id == user_id && is_open c.status

abbrev pub new_cart : ℕ → ℕ → ℕ → Cart
new_cart id currency user_id = record {
  id = id;
  user_id = user_id;
  status = open_cart;
  currency = currency;
  total_minor = 0;
  items = [];
}

-- getOrCreateCart. `currency` is the column's default.
unfoldable pub get_or_create_cart : ℕ → ℕ → Store → Cart × Store
unfolding find_last
get_or_create_cart currency user_id s = elim (find_last (open_of user_id) s.carts) [
  | some c ↦ (c, s)
  | none ↦ (
    new_cart s.next_id currency user_id,
    record s {
      carts = s.carts ++ new_cart s.next_id currency user_id ∷ [];
      next_id = suc s.next_id;
    },
  )
]

-- recalculateCart.
unfoldable pub recalculate_cart : ℕ → Store → Result CommerceError Store
unfolding find_first update_where items_total
recalculate_cart cart_id s = elim (find_cart cart_id s) [
  | none ↦ throws cart_not_open
  | some c ↦
      if is_open c.status
      then ok (write_cart cart_id (λ x. record x { total_minor = items_total c.items }) s)
      else throws cart_not_open
]
