-- ===== src/Commerce/Mismatch.antt =====
-- reconcileGopay on an answer that is not about the payment.
use spottex_test.Common.{
  ℕ, ◌≡◌, ◌≢◌, refl, sym, subst, ◌∙◌, ap, true, false, Option, some, arith, or_else, Result, ok,
  ==→eq, Bool-cases, inl, inr, none,
}
use spottex_test.Commerce.Model.{
  Payment, ProviderId, gopay_id, local_id, mock_renewal_id, ProviderState,
}
use spottex_test.Commerce.Store.{Store, CommerceError, is_gopay, find_payment}
use spottex_test.Commerce.Gateway.{Config, GopayAnswer, AskStatus, answers_id, answer_matches}
use spottex_test.Commerce.Reconcile.{
  contradicts, judge, check_answer, ask_and_apply, reconcile_gopay,
}
use spottex_test.Commerce.Reconciled.{SameDeal, answer_matches-SameDeal, mismatch_refused}

-- The money and the services are those of the store `t`, and the call did not return.
pub record Refused (t : Store) (m : Result CommerceError ProviderState × Store) : Type 0 where
  pub payments : m.1.payments ≡ t.payments
  pub carts : m.1.carts ≡ t.carts
  pub subscriptions : m.1.subscriptions ≡ t.subscriptions
  pub invoices : m.1.invoices ≡ t.invoices
  pub no_result : (r : ProviderState) → m.0 ≢ ok r

judge-Refused :
    (cfg : Config) (now worker : ℕ) (p : Payment) (i : ProviderId) (a : GopayAnswer) (t : Store)
    → answer_matches cfg p i a ≡ false
    → Refused t (judge cfg now worker p i a a.state t)
judge-Refused cfg now worker p i a t h =
    let (e₁, e₂, e₃, e₄, n) = mismatch_refused cfg now worker p i a a.state t h in
    record { payments = e₁; carts = e₂; subscriptions = e₃; invoices = e₄; no_result = n }

asks :
    (cfg : Config) (now worker : ℕ) (ask : AskStatus) (p : Payment) (i : ProviderId)
    (o : Option GopayAnswer) (s t : Store)
    → ask i s ≡ (o, t)
    → ask_and_apply cfg now worker ask p (some i) s ≡ check_answer cfg now worker p i o t
unfolding ask_and_apply
asks cfg now worker ask p i o s t e = ap (λ x. check_answer cfg now worker p i x.0 x.1) e

reaches :
    (cfg : Config) (now worker : ℕ) (ask : AskStatus) (id : ℕ) (notified : Option ProviderId)
    (s : Store) (p : Payment)
    → find_payment id s ≡ some p
    → is_gopay p.provider ≡ true
    → contradicts p.provider_payment_id notified ≡ false
    → reconcile_gopay cfg now worker ask id notified s
      ≡ ask_and_apply cfg now worker ask p (or_else p.provider_payment_id notified) s
unfolding reconcile_gopay
reaches cfg now worker ask id notified s p found g c = ground arith

checks :
    (cfg : Config) (now worker : ℕ) (p : Payment) (i : ProviderId) (a : GopayAnswer) (t : Store)
    → check_answer cfg now worker p i (some a) t ≡ judge cfg now worker p i a a.state t
unfolding check_answer
checks cfg now worker p i a t = refl

-- The answer is that of GoPay payment `i` over the payment: the id that was asked for, and the deal.
pub record AnswersFor (cfg : Config) (p : Payment) (i : ProviderId) (a : GopayAnswer) : Type 0 where
  pub number : ℕ
  pub asked : i ≡ gopay_id number
  pub answered : a.id ≡ some number
  pub deal : SameDeal cfg p a

answers_id_lem :
    (o : Option ℕ) (i : ProviderId)
    → answers_id o i ≡ true
    → (n : ℕ) × (i ≡ gopay_id n) × (o ≡ some n)
answers_id_lem none i h = cc
answers_id_lem (some n) (gopay_id m) h = (n, ap gopay_id (sym (==→eq n m h)), refl)
answers_id_lem (some n) (local_id m) h = cc
answers_id_lem (some n) (mock_renewal_id m) h = cc

matching_id :
    (cfg : Config) (p : Payment) (i : ProviderId) (a : GopayAnswer)
    → answer_matches cfg p i a ≡ true
    → answers_id a.id i ≡ true
unfolding answer_matches
matching_id cfg p i a h = ground arith

mismatching :
    (cfg : Config) (p : Payment) (i : ProviderId) (a : GopayAnswer)
    → ¬ AnswersFor cfg p i a
    → answer_matches cfg p i a ≡ false
mismatching cfg p i a other = elim (Bool-cases (answer_matches cfg p i a)) [
  | inr e ↦ e
  | inl e ↦
      let (n, asked, answered) = answers_id_lem a.id i (matching_id cfg p i a e) in
      absurd (
        other (record {
          number = n;
          asked = asked;
          answered = answered;
          deal = answer_matches-SameDeal cfg p i a e;
        }))
]

-- An answer whose amount, currency, order number, merchant or id is not that of the GoPay payment
-- changes no payment, cart, subscription or invoice beyond what other transactions committed while
-- GoPay was asked, whatever state it reports, and the call throws.
pub reconcile_mismatch :
    (cfg : Config) (now worker : ℕ) (ask : AskStatus) (id : ℕ) (notified : Option ProviderId)
    (s t : Store) (p : Payment) (i : ProviderId) (a : GopayAnswer)
    → find_payment id s ≡ some p
    → is_gopay p.provider ≡ true
    → contradicts p.provider_payment_id notified ≡ false
    → or_else p.provider_payment_id notified ≡ some i
    → ask i s ≡ (some a, t)
    → ¬ AnswersFor cfg p i a
    → Refused t (reconcile_gopay cfg now worker ask id notified s)
reconcile_mismatch cfg now worker ask id notified s t p i a found g c linked answered other =
    subst (Refused t)
      (sym (
        reaches cfg now worker ask id notified s p found g c
        ∙ ap (λ o. ask_and_apply cfg now worker ask p o s) linked
        ∙ asks cfg now worker ask p i (some a) s t answered
        ∙ checks cfg now worker p i a t))
      (judge-Refused cfg now worker p i a t (mismatching cfg p i a other))
