-- ===== src/Commerce/Reconciled.antt =====
-- What reconcileGopay guarantees, whatever other transactions commit while it waits for GoPay.
use spottex_test.Common.{
  ℕ, ◌≡◌, refl, sym, ◌∙◌, ap, subst, ◌≢◌, true, false, ◌&&◌, not, Option, none, some, arith,
  if◌then◌else◌, row, row_key, row-update_where, or_else, ok, Bool-cases, inl, inr,
}
use spottex_test.Commerce.Model.{Payment, paid, Payload, ProviderId, ProviderState, gopay_paid}
use spottex_test.Commerce.Store.{Store, is_paid, find_payment}
use spottex_test.Commerce.Exec.{>>=-returns, commits-returns}
use spottex_test.Commerce.Gateway.{Config, GopayAnswer, AskStatus, answer_matches}
use spottex_test.Commerce.Finalize.{finalize_paid_payment, confirm}
use spottex_test.Commerce.Delivery.{confirm-SameMoney}
use spottex_test.Commerce.Settled.{finalize_settles, finalize_found, finalize_paid, is_paid_only}
use spottex_test.Commerce.Reconcile.{
  link_payment, finalizes, dispatch, touch_paid, apply_answer, check_answer, judge, ask_and_apply,
  touched, still_paid, is_refund, merged_payload, reconcile_gopay,
}

-- The payment of a run of finalizePaidPayment that returned is PAID.
pub finalize_is_paid :
    (year_of : ℕ → ℕ) (now i : ℕ) (payload : Payload) (s s' : Store)
    → finalize_paid_payment year_of now i payload s ≡ ok s'
    → (q : Payment) × (find_payment i s' ≡ some q) × (q.status ≡ paid)
finalize_is_paid year_of now i payload s s' h =
    let (p, found, own) = finalize_found year_of now i payload s s' h in
    elim (Bool-cases (is_paid p.status)) [
      | inl done ↦
          let e : s' ≡ confirm now p s =
            cc (finalize_paid year_of now i payload s p found (is_paid_only p.status done)) in
          (
            p,
            ap (find_payment i) e
                ∙ ap (row (λ x. x.id) i) (confirm-SameMoney now p s).payments
                ∙ found,
            is_paid_only p.status done,
          )
      | inr due ↦
          let t = finalize_settles year_of now i payload s s' p found due h in
          (t.payment', ap (λ k. find_payment k s') (sym own) ∙ t.found', t.is_paid')
    ]

touch_keeps_paid :
    (now : ℕ) (p : Payment) (payload : Payload) (state : ProviderState) (i : ℕ) (s : Store)
    (q : Payment)
    → find_payment i s ≡ some q
    → q.status ≡ paid
    → (q' : Payment) × (find_payment i (touch_paid now p payload state s).1 ≡ some q')
      × (q'.status ≡ paid)
unfolding touch_paid
touch_keeps_paid now p payload state i s q found h =
    elim (Bool-cases (is_paid p.status && not (is_refund state))) [
      | inl due ↦
          rw (due, touch_paid)
            (
              if still_paid p.id q then touched now payload q else q,
              row-update_where (λ x. x.id) (still_paid p.id) (touched now payload) (λ x. refl) i
                    s.payments
                  ∙ rw found refl,
              ground arith,
            )
      | inr over ↦ rw (over, touch_paid) (q, found, h)
    ]

finalizes_is_paid :
    (cfg : Config) (now i : ℕ) (payload : Payload) (s s' : Store) (u : Unit {0})
    → finalizes cfg now i payload s ≡ (ok u, s')
    → (q : Payment) × (find_payment i s' ≡ some q) × (q.status ≡ paid)
unfolding finalizes
finalizes_is_paid cfg now i payload s s' u h =
    finalize_is_paid cfg.year_of now i payload s s'
      (commits-returns (finalize_paid_payment cfg.year_of now i payload) s h)

apply_paid :
    (cfg : Config) (now worker : ℕ) (p : Payment) (i : ProviderId) (a : GopayAnswer) (s s' : Store)
    (r : ProviderState)
    → apply_answer cfg now worker p i a gopay_paid s ≡ (ok r, s')
    → (q : Payment) × (find_payment p.id s' ≡ some q) × (q.status ≡ paid)
unfolding apply_answer dispatch
apply_paid cfg now worker p i a s s' r h =
    let payload = merged_payload cfg p a gopay_paid in
    let (_, s₁, linked, h₁) = >>=-returns (link_payment now p i) _ s h in
    let (u, s₂, settled, h₂) = >>=-returns (finalizes cfg now p.id payload) _ s₁ h₁ in
    let (_, s₃, touch, h₃) = >>=-returns (touch_paid now p payload gopay_paid) _ s₂ h₂ in
    let (q, found, is_paid₂) = finalizes_is_paid cfg now p.id payload s₁ s₂ u settled in
    let (q', found', is_paid') =
      touch_keeps_paid now p payload gopay_paid p.id s₂ q found is_paid₂ in
    let e : s' ≡ s₃ = ground arith in
    let e₃ : (touch_paid now p payload gopay_paid s₂).1 ≡ s₃ = ap (λ x. x.1) touch in
    (q', ap (find_payment p.id) (e ∙ sym e₃) ∙ found', is_paid')

judge_inversion :
    (cfg : Config) (now worker : ℕ) (p : Payment) (i : ProviderId) (a : GopayAnswer)
    (o : Option ProviderState) (s s' : Store) (r : ProviderState)
    → judge cfg now worker p i a o s ≡ (ok r, s')
    → (state : ProviderState) × (o ≡ some state)
      × (answer_matches cfg p i a ≡ true)
      × (apply_answer cfg now worker p i a state s ≡ (ok r, s'))
unfolding judge
judge_inversion cfg now worker p i a none s s' r h = absurd (ground arith)
judge_inversion cfg now worker p i a (some state) s s' r h =
    (state, refl, ground arith, ground arith)

-- The answer that a reconciliation which returns has acted on.
pub record Confirmed (cfg : Config) (now worker : ℕ) (ask : AskStatus) (p : Payment) (s s' : Store)
    (r : ProviderState) : Type 0 where
  pub asked : ProviderId
  pub answer : GopayAnswer
  pub state : ProviderState
  pub meanwhile : Store
  pub answered : ask asked s ≡ (some answer, meanwhile)
  pub has_state : answer.state ≡ some state
  pub matching : answer_matches cfg p asked answer ≡ true
  pub applied : apply_answer cfg now worker p asked answer state meanwhile ≡ (ok r, s')

check_inversion :
    (cfg : Config) (now worker : ℕ) (ask : AskStatus) (p : Payment) (i : ProviderId)
    (o : Option GopayAnswer) (s t s' : Store) (r : ProviderState)
    → ask i s ≡ (o, t)
    → check_answer cfg now worker p i o t ≡ (ok r, s')
    → Confirmed cfg now worker ask p s s' r
unfolding check_answer
check_inversion cfg now worker ask p i none s t s' r e h = absurd (ground arith)
check_inversion cfg now worker ask p i (some a) s t s' r e h =
    let (state, has, m, applied) = judge_inversion cfg now worker p i a a.state t s' r h in
    record {
      asked = i;
      answer = a;
      state = state;
      meanwhile = t;
      answered = e;
      has_state = has;
      matching = m;
      applied = applied;
    }

ask_inversion :
    (cfg : Config) (now worker : ℕ) (ask : AskStatus) (p : Payment) (o : Option ProviderId)
    (s s' : Store) (r : ProviderState)
    → ask_and_apply cfg now worker ask p o s ≡ (ok r, s')
    → Confirmed cfg now worker ask p s s' r
unfolding ask_and_apply
ask_inversion cfg now worker ask p none s s' r h = absurd (ground arith)
ask_inversion cfg now worker ask p (some i) s s' r h =
    check_inversion cfg now worker ask p i (ask i s).0 s (ask i s).1 s' r refl h

reconcile_inversion :
    (cfg : Config) (now worker : ℕ) (ask : AskStatus) (id : ℕ) (notified : Option ProviderId)
    (s s' : Store) (r : ProviderState) (p : Payment)
    → find_payment id s ≡ some p
    → reconcile_gopay cfg now worker ask id notified s ≡ (ok r, s')
    → Confirmed cfg now worker ask p s s' r
unfolding reconcile_gopay
reconcile_inversion cfg now worker ask id notified s s' r p found h =
    ask_inversion cfg now worker ask p (or_else p.provider_payment_id notified) s s' r
      (ground arith)

-- The payment that GoPay confirmed: its amount, currency, order number and merchant.
pub record SameDeal (cfg : Config) (p : Payment) (a : GopayAnswer) : Type 0 where
  pub amount : a.amount ≡ some p.amount_minor
  pub currency : a.currency ≡ some p.currency
  pub order_number : a.order_number ≡ some p.id
  pub goid : a.goid ≡ some cfg.go_id

pub answer_matches-SameDeal :
    (cfg : Config) (p : Payment) (i : ProviderId) (a : GopayAnswer)
    → answer_matches cfg p i a ≡ true
    → SameDeal cfg p a
unfolding answer_matches
answer_matches-SameDeal cfg p i a h = ground arith

returned_state :
    (cfg : Config) (now worker : ℕ) (p : Payment) (i : ProviderId) (a : GopayAnswer)
    (state r : ProviderState) (s s' : Store)
    → apply_answer cfg now worker p i a state s ≡ (ok r, s')
    → r ≡ state
unfolding apply_answer
returned_state cfg now worker p i a state r s s' h =
    let payload = merged_payload cfg p a state in
    let (_, s₁, _, h₁) = >>=-returns (link_payment now p i) _ s h in
    let (_, s₂, _, h₂) = >>=-returns (dispatch cfg now worker p payload state) _ s₁ h₁ in
    let (_, s₃, _, h₃) = >>=-returns (touch_paid now p payload state) _ s₂ h₂ in ground arith

-- Whatever commits while GoPay is asked: a reconciliation that returns PAID had an answer with the
-- amount, currency, order number and merchant of the payment as it was read before the request, and it
-- leaves the payment PAID.
pub reconcile_paid :
    (cfg : Config) (now worker : ℕ) (ask : AskStatus) (id : ℕ) (notified : Option ProviderId)
    (s s' : Store) (p : Payment)
    → find_payment id s ≡ some p
    → reconcile_gopay cfg now worker ask id notified s ≡ (ok gopay_paid, s')
    → ((i : ProviderId) × (a : GopayAnswer) × ((ask i s).0 ≡ some a) × SameDeal cfg p a)
      × ((q : Payment) × (find_payment id s' ≡ some q) × (q.status ≡ paid))
reconcile_paid cfg now worker ask id notified s s' p found h =
    let c = reconcile_inversion cfg now worker ask id notified s s' gopay_paid p found h in
    let e : c.state ≡ gopay_paid = sym (
      returned_state cfg now worker p c.asked c.answer c.state gopay_paid c.meanwhile s'
        c.applied) in
    let (q, at_q, paid_q) = apply_paid cfg now worker p c.asked c.answer c.meanwhile s' gopay_paid (
      subst
        (λ x. apply_answer cfg now worker p c.asked c.answer x c.meanwhile ≡ (ok gopay_paid, s')) e
        c.applied) in
    (
      (
        c.asked,
        c.answer,
        ap (λ x. x.0) c.answered,
        answer_matches-SameDeal cfg p c.asked c.answer c.matching,
      ),
      (
        q,
        ap (λ k. find_payment k s') (sym (row_key (λ x. x.id) id s.payments found)) ∙ at_q,
        paid_q,
      ),
    )

pub mismatch_refused :
    (cfg : Config) (now worker : ℕ) (p : Payment) (i : ProviderId) (a : GopayAnswer)
    (o : Option ProviderState) (s : Store)
    → answer_matches cfg p i a ≡ false
    → let (r, s') = judge cfg now worker p i a o s in
      (s'.payments ≡ s.payments)
      × (s'.carts ≡ s.carts)
      × (s'.subscriptions ≡ s.subscriptions)
      × (s'.invoices ≡ s.invoices)
      × ((x : ProviderState) → r ≢ ok x)
unfolding judge
mismatch_refused cfg now worker p i a none s h = (refl, refl, refl, refl, λ x e. cc)
mismatch_refused cfg now worker p i a (some state) s h =
    (ground arith, ground arith, ground arith, ground arith, λ x e. ground arith)
