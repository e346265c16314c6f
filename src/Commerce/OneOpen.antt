-- ===== src/Commerce/OneOpen.antt =====
-- A user has at most one open cart (the unique index "cart_one_open_per_user_key"), and the cart
-- operations keep it so without failing on the index.
use spottex_test.Common.{
  ℕ, ◌≡◌, refl, Bool, true, false, ◌&&◌, not, none, some, List, [], ◌∷◌, ◌++◌, arith, ◌==◌,
  if◌then◌else◌, update_where, find_last, Option-cases, inl, inr,
}
use spottex_test.Commerce.Model.{Cart, CartStatus, open_cart}
use spottex_test.Commerce.Store.{Store, is_open, in_checkout}
use spottex_test.Commerce.Carts.{
  another_open, reopened_status, reopen_cart_if_possible, reopen_from_checkout, get_or_create_cart,
  open_of, new_cart,
}

-- Two open carts of one user are the same cart.
abbrev Agree : Cart → Cart → Type 0
Agree c d = is_open c.status ≡ true → is_open d.status ≡ true → c.user_id ≡ d.user_id → c.id ≡ d.id

abbrev AgreeAll : Cart → List Cart → Type 0
AgreeAll c [] = Unit {0}
AgreeAll c (d ∷ ds) = Agree c d × AgreeAll c ds

abbrev pub OneOpen : List Cart → Type 0
OneOpen [] = Unit {0}
OneOpen (c ∷ cs) = AgreeAll c cs × OneOpen cs

-- Every row of the cart is the user's.
abbrev pub OwnedBy : ℕ → ℕ → List Cart → Type 0
OwnedBy user_id cart_id [] = Unit {0}
OwnedBy user_id cart_id (c ∷ cs) =
    (c.id ≡ cart_id → c.user_id ≡ user_id) × OwnedBy user_id cart_id cs

module _ (user_id cart_id : ℕ) (status : CartStatus) (p : Cart → Bool)
    (only : (c : Cart) → p c ≡ true → c.id ≡ cart_id) where
  abbrev set_status : List Cart → List Cart
  set_status cs = update_where p (λ c. record c { status = status }) cs

  -- No other cart of the user is open, as `another_open` finds it.
  abbrev Alone : Cart → Type 0
  Alone c = (c.user_id == user_id && is_open c.status && not (c.id == cart_id)) ≡ false

  update_where-Agree :
      (c d : Cart)
      → Agree c d
      → (c.id ≡ cart_id → c.user_id ≡ user_id)
      → (d.id ≡ cart_id → d.user_id ≡ user_id)
      → (is_open status ≡ true → Alone c)
      → (is_open status ≡ true → Alone d)
      → Agree
          (if p c then record c { status = status } else c)
          (if p d then record d { status = status } else d)
  update_where-Agree c d a oc od nc nd = ground (arith, only c, only d)

  AgreeAll-written :
      (c : Cart) (cs : List Cart)
      → AgreeAll c cs
      → (c.id ≡ cart_id → c.user_id ≡ user_id)
      → OwnedBy user_id cart_id cs
      → (is_open status ≡ true → Alone c)
      → (is_open status ≡ true → another_open user_id cart_id cs ≡ false)
      → AgreeAll (if p c then record c { status = status } else c) (set_status cs)
  unfolding another_open update_where
  AgreeAll-written c [] a oc o nc n = tt
  AgreeAll-written c (d ∷ ds) a oc o nc n = (
    update_where-Agree c d a.0 oc o.0 nc (λ h. ground (arith, n h)),
    AgreeAll-written c ds a.1 oc o.1 nc (λ h. ground (arith, n h)),
  )

  -- Writing a status to rows of the user's cart keeps one open cart, if no other cart of the user is
  -- open whenever the status is OPEN.
  OneOpen-written :
      (cs : List Cart)
      → OneOpen cs
      → OwnedBy user_id cart_id cs
      → (is_open status ≡ true → another_open user_id cart_id cs ≡ false)
      → OneOpen (set_status cs)
  unfolding another_open update_where
  OneOpen-written [] a o n = tt
  OneOpen-written (c ∷ cs) a o n = (
    AgreeAll-written c cs a.0 o.0 o.1 (λ h. ground (arith, n h)) (λ h. ground (arith, n h)),
    OneOpen-written cs a.1 o.1 (λ h. ground (arith, n h)),
  )

reopened_guard :
    (user_id cart_id : ℕ) (s : Store)
    → is_open (reopened_status user_id cart_id s) ≡ true
    → another_open user_id cart_id s.carts ≡ false
reopened_guard user_id cart_id s h = ground arith

-- Reopening a cart of the user keeps at most one open cart to a user, from any status of the cart.
pub reopen_cart-OneOpen :
    (cart_id user_id : ℕ) (s : Store)
    → OneOpen s.carts
    → OwnedBy user_id cart_id s.carts
    → OneOpen (reopen_cart_if_possible cart_id user_id s).carts
unfolding reopen_cart_if_possible
reopen_cart-OneOpen cart_id user_id s one own =
    OneOpen-written user_id cart_id (reopened_status user_id cart_id s) (λ c. c.id == cart_id)
      (λ c h. ground arith) s.carts one own (reopened_guard user_id cart_id s)

-- So does reopening one that is in CHECKOUT.
pub reopen_from_checkout-OneOpen :
    (cart_id user_id : ℕ) (s : Store)
    → OneOpen s.carts
    → OwnedBy user_id cart_id s.carts
    → OneOpen (reopen_from_checkout cart_id user_id s).carts
unfolding reopen_from_checkout
reopen_from_checkout-OneOpen cart_id user_id s one own =
    OneOpen-written user_id cart_id (reopened_status user_id cart_id s)
      (λ c. c.id == cart_id && in_checkout c.status) (λ c h. ground arith) s.carts one own
      (reopened_guard user_id cart_id s)

not_open : (u : ℕ) (c d : Cart) → open_of u c ≡ false → d.user_id ≡ u → Agree c d
not_open u c d h e = ground arith

AgreeAll-append :
    (c d : Cart) (cs : List Cart) → AgreeAll c cs → Agree c d → AgreeAll c (cs ++ d ∷ [])
AgreeAll-append c d [] a h = (h, tt)
AgreeAll-append c d (x ∷ cs) a h = (a.0, AgreeAll-append c d cs a.1 h)

none_here :
    (u : ℕ) (c : Cart) (cs : List Cart)
    → find_last (open_of u) (c ∷ cs) ≡ none
    → open_of u c ≡ false
unfolding find_last
none_here u c cs h = ground arith

none_there :
    (u : ℕ) (c : Cart) (cs : List Cart)
    → find_last (open_of u) (c ∷ cs) ≡ none
    → find_last (open_of u) cs ≡ none
unfolding find_last
none_there u c cs h = ground arith

found_open :
    (u : ℕ) (cs : List Cart) (c : Cart) → find_last (open_of u) cs ≡ some c → open_of u c ≡ true
unfolding find_last
found_open u [] c h = cc
found_open u (x ∷ cs) c h = ground (arith, found_open u cs c)

OneOpen-append :
    (u : ℕ) (d : Cart) (cs : List Cart)
    → d.user_id ≡ u
    → find_last (open_of u) cs ≡ none
    → OneOpen cs
    → OneOpen (cs ++ d ∷ [])
unfolding find_last
OneOpen-append u d [] e h one = (tt, tt)
OneOpen-append u d (c ∷ cs) e h one = (
  AgreeAll-append c d cs one.0 (not_open u c d (none_here u c cs h) e),
  OneOpen-append u d cs e (none_there u c cs h) one.1,
)

-- getOrCreateCart returns an open cart of the user, and keeps at most one open cart to a user.
pub get_or_create_cart-OneOpen :
    (currency user_id : ℕ) (s : Store)
    → OneOpen s.carts
    → let (c, s') = get_or_create_cart currency user_id s in
      (c.user_id ≡ user_id) × (c.status ≡ open_cart) × OneOpen s'.carts
unfolding get_or_create_cart
get_or_create_cart-OneOpen currency user_id s one =
    elim (Option-cases (find_last (open_of user_id) s.carts)) [
      | inl new ↦
          rw (new, get_or_create_cart)
            (
              refl,
              refl,
              OneOpen-append user_id (new_cart s.next_id currency user_id) s.carts refl new one,
            )
      | inr (c, there) ↦
          rw (there, get_or_create_cart) (ground (arith, found_open user_id s.carts c there))
    ]
