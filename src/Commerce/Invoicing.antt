-- ===== src/Commerce/Invoicing.antt =====
-- The invoices of finalizePaidPayment: one for a charged payment, its lines add up, and no number is
-- given twice.
use spottex_test.Common.{
  ℕ, ◌+◌, ◌<◌, ◌≡◌, refl, ◌∙◌, ap, false, none, some, List, [], ◌∷◌, ◌++◌, arith, ==_refl, ok, ltb,
  ◌≤◌, ◌&&◌, not, is_some, Bool-cases, inl, inr,
}
use spottex_test.Commerce.Model.{
  Cart, CartItem, Payload, Payment, Invoice, InvoiceItem, InvoiceCounter,
}
use spottex_test.Commerce.Store.{Store, is_paid, find_payment, items_total}
use spottex_test.Commerce.Settle.{expected_total, settle, check_cart}
use spottex_test.Commerce.Grant.{
  grant_subscriptions, complete_renewal, invoice_of, next_sequence, bump_counter, invoice_items,
  issue_invoice, new_invoice,
}
use spottex_test.Commerce.Finalize.{confirm, deliver, finalize_paid_payment}
use spottex_test.Commerce.Steps.{
  Fulfilled, check_run-SameTables, accept_offer-SameTables, check_trials-eq,
  queue_analysis-SameTables, grant_mandate-SameTables,
}
use spottex_test.Commerce.Delivery.{grant_subscriptions-SameMoney, complete_renewal-SameMoney}
use spottex_test.Commerce.Settled.{finalize-Fulfilled}

-- The store that the invoice is issued in has the invoices and counters of the first one.
record SameInvoices (s s' : Store) : Type 0 where
  invoices : s'.invoices ≡ s.invoices
  counters : s'.counters ≡ s.counters

confirm-SameInvoices : (now : ℕ) (p : Payment) (s : Store) → SameInvoices s (confirm now p s)
unfolding confirm
confirm-SameInvoices now p s = ground arith

settle-SameInvoices :
    (now : ℕ) (payload : Payload) (p : Payment) (c : Cart) (s : Store)
    → SameInvoices s (settle now payload p c s)
unfolding settle
settle-SameInvoices now payload p c s = record { invoices = refl; counters = refl }

-- The invoices of the result are those of `issue_invoice` on a store with the old ones.
record Issued (year_of : ℕ → ℕ) (now : ℕ) (p : Payment) (s s' : Store) : Type 0 where
  pub cart : Cart
  pub at : Store
  pub in_time : check_cart p cart ≡ ok cart
  pub before : at.invoices ≡ s.invoices
  pub counters_before : at.counters ≡ s.counters
  pub after : s'.invoices ≡ (issue_invoice year_of now p cart at).invoices
  pub counters_after : s'.counters ≡ (issue_invoice year_of now p cart at).counters

Fulfilled-Issued :
    (year_of : ℕ → ℕ) (now : ℕ) (payload : Payload) (p : Payment) (s s' : Store)
    → Fulfilled year_of now payload p s s'
    → Issued year_of now p s s'
unfolding deliver
Fulfilled-Issued year_of now payload p s s' f =
    let c = f.cart in
    let e₁ : f.checked ≡ s = check_run-SameTables p s f.checked f.run_ok in
    let (t₂, _) = accept_offer-SameTables now p f.checked f.offered f.offer_ok in
    let e₃ : f.tried ≡ f.offered = check_trials-eq p c.items f.offered f.tried f.trial_ok in
    let st = settle now payload p c f.tried in
    let ss = settle-SameInvoices now payload p c f.tried in
    let (t₄, _) = queue_analysis-SameTables now p st f.queued f.queue_ok in
    let t₅ = grant_mandate-SameTables now p f.queued f.mandate f.granted f.grant_ok in
    let g = grant_subscriptions now p f.mandate c.items f.granted in
    let (_, gi, gc) = grant_subscriptions-SameMoney now p f.mandate c.items f.granted in
    let r = complete_renewal now p f.mandate g in
    let (_, ri, rc, _) = complete_renewal-SameMoney now p f.mandate g in
    let cs = confirm-SameInvoices now p (issue_invoice year_of now p c r) in
    record {
      cart = c;
      at = r;
      in_time = f.in_time;
      before =
          ri
          ∙ gi
          ∙ t₅.invoices
          ∙ t₄.invoices
          ∙ ss.invoices
          ∙ ap (λ x. x.invoices) e₃
          ∙ t₂.invoices
          ∙ ap (λ x. x.invoices) e₁;
      counters_before =
          rc
          ∙ gc
          ∙ t₅.counters
          ∙ t₄.counters
          ∙ ss.counters
          ∙ ap (λ x. x.counters) e₃
          ∙ t₂.counters
          ∙ ap (λ x. x.counters) e₁;
      after = ap (λ x. x.invoices) f.result ∙ cs.invoices;
      counters_after = ap (λ x. x.counters) f.result ∙ cs.counters;
    }

-- The sum over an invoice's lines.
abbrev pub lines_total : List InvoiceItem → ℕ
lines_total [] = 0
lines_total (i ∷ is) = i.total_minor + lines_total is

lines_total-invoice_items : (is : List CartItem) → lines_total (invoice_items is) ≡ items_total is
unfolding invoice_items items_total
lines_total-invoice_items [] = refl
lines_total-invoice_items (i ∷ is) = omega (arith, lines_total-invoice_items is)

invoice_of-append :
    (p : Payment) (is : List Invoice) (i : Invoice)
    → invoice_of p is ≡ none
    → i.payment_id ≡ p.id
    → invoice_of p (is ++ i ∷ []) ≡ some i
unfolding invoice_of
invoice_of-append p [] i h e = ground arith
invoice_of-append p (x ∷ is) i h e = ground (arith, invoice_of-append p is i)

charged_price :
    (p : Payment) (c : Cart)
    → check_cart p c ≡ ok c
    → 0 < p.amount_minor
    → items_total c.items ≡ p.amount_minor
unfolding check_cart expected_total
charged_price p c h pos = ground arith

issue_new :
    (year_of : ℕ → ℕ) (now : ℕ) (p : Payment) (c : Cart) (s : Store)
    → 0 < p.amount_minor
    → invoice_of p s.invoices ≡ none
    → (issue_invoice year_of now p c s).invoices ≡ s.invoices ++ new_invoice year_of now p c s ∷ []
unfolding issue_invoice
issue_new year_of now p c s pos h = ground arith

issue_none :
    (year_of : ℕ → ℕ) (now : ℕ) (p : Payment) (c : Cart) (s : Store)
    → p.amount_minor ≡ 0
    → (issue_invoice year_of now p c s).invoices ≡ s.invoices
unfolding issue_invoice
issue_none year_of now p c s h = ground arith

-- A first settlement of a charged payment that has no invoice appends one invoice: for the payment,
-- over its amount, and with lines that add up to that amount.
pub finalize_invoices :
    (year_of : ℕ → ℕ) (now i : ℕ) (payload : Payload) (s s' : Store) (p : Payment)
    → find_payment i s ≡ some p
    → is_paid p.status ≡ false
    → 0 < p.amount_minor
    → invoice_of p s.invoices ≡ none
    → finalize_paid_payment year_of now i payload s ≡ ok s'
    → (v : Invoice) × (s'.invoices ≡ s.invoices ++ v ∷ [])
      × (invoice_of p s'.invoices ≡ some v)
      × (v.total_minor ≡ p.amount_minor)
      × (lines_total v.items ≡ p.amount_minor)
finalize_invoices year_of now i payload s s' p found unpaid pos fresh h =
    let o =
      Fulfilled-Issued year_of now payload p s s'
        (finalize-Fulfilled year_of now i payload s s' p found unpaid h) in
    let v = new_invoice year_of now p o.cart o.at in
    let e : s'.invoices ≡ s.invoices ++ v ∷ [] =
      o.after
      ∙ issue_new year_of now p o.cart o.at pos (ap (invoice_of p) o.before ∙ fresh)
      ∙ ap (λ x. x ++ v ∷ []) o.before in
    (
      v,
      e,
      ap (invoice_of p) e ∙ invoice_of-append p s.invoices v fresh refl,
      refl,
      lines_total-invoice_items o.cart.items ∙ charged_price p o.cart o.in_time pos,
    )

-- A settlement at no charge issues no invoice.
finalize_free_invoices :
    (year_of : ℕ → ℕ) (now i : ℕ) (payload : Payload) (s s' : Store) (p : Payment)
    → find_payment i s ≡ some p
    → is_paid p.status ≡ false
    → p.amount_minor ≡ 0
    → finalize_paid_payment year_of now i payload s ≡ ok s'
    → s'.invoices ≡ s.invoices
finalize_free_invoices year_of now i payload s s' p found unpaid free h =
    let o =
      Fulfilled-Issued year_of now payload p s s'
        (finalize-Fulfilled year_of now i payload s s' p found unpaid h) in
    o.after ∙ issue_none year_of now p o.cart o.at free ∙ o.before

-- No later invoice has the year and the sequence of this one.
abbrev Fresh : Invoice → List Invoice → Type 0
Fresh v [] = Unit {0}
Fresh v (x ∷ xs) = ¬ ((v.year ≡ x.year) × (v.sequence ≡ x.sequence)) × Fresh v xs

-- Every invoice's number is below its year's next one, and no two are equal.
abbrev pub Numbered : List InvoiceCounter → List Invoice → Type 0
Numbered cs [] = Unit {0}
Numbered cs (v ∷ vs) = (v.sequence < next_sequence v.year cs) × Fresh v vs × Numbered cs vs

bump_le :
    (year y : ℕ) (cs : List InvoiceCounter)
    → next_sequence y cs ≤ next_sequence y (bump_counter year cs)
unfolding next_sequence bump_counter
bump_le year y [] = ground arith
bump_le year y (c ∷ cs) = ground (arith, bump_le year y cs)

bump_self :
    (year : ℕ) (cs : List InvoiceCounter)
    → next_sequence year (bump_counter year cs) ≡ next_sequence year cs + 1
unfolding next_sequence bump_counter
bump_self year [] = ground (arith, ==_refl year)
bump_self year (c ∷ cs) = ground (arith, bump_self year cs)

Fresh-append :
    (v : Invoice) (vs : List Invoice) (w : Invoice)
    → Fresh v vs
    → ¬ ((v.year ≡ w.year) × (v.sequence ≡ w.sequence))
    → Fresh v (vs ++ w ∷ [])
Fresh-append v [] w f h = (h, tt)
Fresh-append v (x ∷ vs) w f h = (f.0, Fresh-append v vs w f.1 h)

below_new :
    (cs : List InvoiceCounter) (v w : Invoice)
    → v.sequence < next_sequence v.year cs
    → w.sequence ≡ next_sequence w.year cs
    → ¬ ((v.year ≡ w.year) × (v.sequence ≡ w.sequence))
below_new cs v w below e (y, q) = absurd (omega (arith, ap (λ x. next_sequence x cs) y))

Numbered-append :
    (cs : List InvoiceCounter) (vs : List Invoice) (w : Invoice)
    → w.sequence ≡ next_sequence w.year cs
    → Numbered cs vs
    → Numbered (bump_counter w.year cs) (vs ++ w ∷ [])
Numbered-append cs [] w e h = (omega (arith, bump_self w.year cs), tt, tt)
Numbered-append cs (v ∷ vs) w e h = (
  omega (arith, bump_le w.year v.year cs),
  Fresh-append v vs w h.1 (below_new cs v w h.0 e),
  Numbered-append cs vs w e h.2,
)

issue-Numbered :
    (year_of : ℕ → ℕ) (now : ℕ) (p : Payment) (c : Cart) (s : Store)
    → Numbered s.counters s.invoices
    → Numbered (issue_invoice year_of now p c s).counters (issue_invoice year_of now p c s).invoices
unfolding issue_invoice
issue-Numbered year_of now p c s h =
    elim (Bool-cases (ltb 0 p.amount_minor && not (is_some (invoice_of p s.invoices)))) [
      | inl new ↦
          rw new (Numbered-append s.counters s.invoices (new_invoice year_of now p c s) refl h)
      | inr old ↦ rw old h
    ]

-- Invoice numbers are unique: if no two invoices share a year and a sequence, and all are below the
-- counters, then this holds after a first settlement too.
pub finalize-Numbered :
    (year_of : ℕ → ℕ) (now i : ℕ) (payload : Payload) (s s' : Store) (p : Payment)
    → find_payment i s ≡ some p
    → is_paid p.status ≡ false
    → Numbered s.counters s.invoices
    → finalize_paid_payment year_of now i payload s ≡ ok s'
    → Numbered s'.counters s'.invoices
finalize-Numbered year_of now i payload s s' p found unpaid n h =
    let o =
      Fulfilled-Issued year_of now payload p s s'
        (finalize-Fulfilled year_of now i payload s s' p found unpaid h) in
    rw (o.after, o.counters_after)
      (issue-Numbered year_of now p o.cart o.at (rw (o.before, o.counters_before) n))
