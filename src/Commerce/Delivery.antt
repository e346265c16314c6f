-- ===== src/Commerce/Delivery.antt =====
-- What the delivery of a settled payment leaves alone, and the mail that it queues.
use spottex_test.Common.{
  ℕ, suc, ◌≡◌, refl, ◌∙◌, true, Option, List, [], ◌∷◌, ◌++◌, arith, ==_refl, if◌then◌else◌,
  Bool-cases, inl, inr,
}
use spottex_test.Jobs.Model.{Mail, MailKey, has_mail, mail_key_eq, payment_confirmation}
use spottex_test.Commerce.Model.{Cart, CartItem, Payment}
use spottex_test.Commerce.Store.{Store, queue_mail, is_subscription}
use spottex_test.Commerce.Grant.{
  grant_subscriptions, new_subscription, complete_renewal, issue_invoice,
}
use spottex_test.Commerce.Finalize.{confirm, deliver}

pub has_mail-append :
    (k : MailKey) (ms : List Mail) (m : Mail)
    → mail_key_eq m.key k ≡ true
    → has_mail k (ms ++ m ∷ []) ≡ true
unfolding has_mail
has_mail-append k [] m h = ground arith
has_mail-append k (x ∷ ms) m h = ground (arith, has_mail-append k ms m h)

-- A queued confirmation is in the outbox.
pub has_mail-confirm :
    (now : ℕ) (p : Payment) (s : Store)
    → has_mail (payment_confirmation p.id) (confirm now p s).outbox ≡ true
unfolding confirm has_mail
has_mail-confirm now p s = elim (Bool-cases (has_mail (payment_confirmation p.id) s.outbox)) [
  | inl there ↦ rw (there, queue_mail) there
  | inr new ↦
      rw (new, queue_mail)
        (has_mail-append (payment_confirmation p.id) s.outbox _ (ground (arith, ==_refl p.id)))
]

-- Where it is already there, nothing is written.
pub confirm_again :
    (now : ℕ) (p : Payment) (s : Store)
    → has_mail (payment_confirmation p.id) s.outbox ≡ true
    → confirm now p s ≡ s
unfolding confirm
confirm_again now p s h = rw (h, queue_mail)

-- The payments and the carts are left alone.
pub record SameMoney (s s' : Store) : Type 0 where
  pub payments : s'.payments ≡ s.payments
  pub carts : s'.carts ≡ s.carts

pub grant_subscriptions-SameMoney :
    (now : ℕ) (p : Payment) (m : Option ℕ) (is : List CartItem) (s : Store)
    → SameMoney s (grant_subscriptions now p m is s)
      × ((grant_subscriptions now p m is s).invoices ≡ s.invoices)
      × ((grant_subscriptions now p m is s).counters ≡ s.counters)
unfolding grant_subscriptions
grant_subscriptions-SameMoney now p m [] s = (record { payments = refl; carts = refl }, refl, refl)
grant_subscriptions-SameMoney now p m (i ∷ is) s = ground (
  arith,
  grant_subscriptions-SameMoney now p m is (
      if is_subscription i.product.type
      then record s {
        subscriptions = s.subscriptions ++ new_subscription now p m i s ∷ [];
        next_id = suc s.next_id;
      }
      else s),
)

pub complete_renewal-SameMoney :
    (now : ℕ) (p : Payment) (m : Option ℕ) (s : Store)
    → SameMoney s (complete_renewal now p m s)
      × ((complete_renewal now p m s).invoices ≡ s.invoices)
      × ((complete_renewal now p m s).counters ≡ s.counters)
      × ((complete_renewal now p m s).subscriptions ≡ s.subscriptions)
unfolding complete_renewal
complete_renewal-SameMoney now p m s = ground arith

issue_invoice-SameMoney :
    (year_of : ℕ → ℕ) (now : ℕ) (p : Payment) (c : Cart) (s : Store)
    → SameMoney s (issue_invoice year_of now p c s)
unfolding issue_invoice
issue_invoice-SameMoney year_of now p c s = ground arith

pub confirm-SameMoney : (now : ℕ) (p : Payment) (s : Store) → SameMoney s (confirm now p s)
unfolding confirm
confirm-SameMoney now p s = ground arith

pub deliver-SameMoney :
    (year_of : ℕ → ℕ) (now : ℕ) (p : Payment) (c : Cart) (m : Option ℕ) (s : Store)
    → SameMoney s (deliver year_of now p c m s)
unfolding deliver
deliver-SameMoney year_of now p c m s =
    let g = grant_subscriptions now p m c.items s in
    let r = complete_renewal now p m g in
    let i = issue_invoice year_of now p c r in
    let a = (grant_subscriptions-SameMoney now p m c.items s).0 in
    let b = (complete_renewal-SameMoney now p m g).0 in
    let d = issue_invoice-SameMoney year_of now p c r in
    let e = confirm-SameMoney now p i in
    record {
      payments = e.payments ∙ d.payments ∙ b.payments ∙ a.payments;
      carts = e.carts ∙ d.carts ∙ b.carts ∙ a.carts;
    }

pub has_mail-deliver :
    (year_of : ℕ → ℕ) (now : ℕ) (p : Payment) (c : Cart) (m : Option ℕ) (s : Store)
    → has_mail (payment_confirmation p.id) (deliver year_of now p c m s).outbox ≡ true
unfolding deliver
has_mail-deliver year_of now p c m s = has_mail-confirm now p (
    issue_invoice year_of now p c
      (complete_renewal now p m (grant_subscriptions now p m c.items s)))
