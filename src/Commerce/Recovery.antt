-- ===== src/Commerce/Recovery.antt =====
-- flagUnlinkedGopayCheckoutsForReview and reconcilePendingGopayPayments of src/lib/commerce/payment.ts.
use spottex_test.Common.{
  ℕ, suc, ◌-◌, ◌*◌, min, max, Bool, true, false, ◌&&◌, ◌||◌, not, none, some, List, [], ◌∷◌, ◌++◌,
  ◌==◌, leb, if◌then◌else◌, is_some, update_where, count_where, find_many, sort_by, take, Result,
  ok, throws,
}
use spottex_test.Commerce.Model.{
  Payment, ProviderState, create_review_required, gopay_paid, gopay_canceled, gopay_timeouted,
  gopay_refunded,
}
use spottex_test.Commerce.Store.{
  Store, CommerceError, gopay_creation_review_required, is_gopay, is_pending, is_payable, is_paid,
  log,
}
use spottex_test.Commerce.Gateway.{Config, AskStatus}
use spottex_test.Commerce.Reconcile.{reconcile_gopay}

-- An old payment that GoPay has given no number.
abbrev pub unlinked_since : ℕ → Payment → Bool
unlinked_since cutoff p =
    is_gopay p.provider
    && is_pending p.status
    && not (is_some p.provider_payment_id)
    && leb p.updated_at cutoff

-- The transaction on one of them, and whether it changed anything.
unfoldable pub flag_unlinked : ℕ → ℕ → Payment → Store → Bool × Store
unfolding count_where update_where
flag_unlinked now cutoff p s =
    if count_where (λ q. q.id == p.id && unlinked_since cutoff q) s.payments == 0
    then (false, s)
    else (
      true,
      log p.user_id gopay_creation_review_required p.id (record s {
        payments =
            update_where (λ q. q.id == p.id && unlinked_since cutoff q)
              (λ q. record q {
                payload = record p.payload { state = some create_review_required };
                updated_at = now;
              })
              s.payments;
      }),
    )

unfoldable pub flag_all : ℕ → ℕ → List Payment → Store → ℕ × Store
unfolding flag_unlinked
flag_all now cutoff [] s = (0, s)
flag_all now cutoff (p ∷ ps) s =
    let (changed, s₁) = flag_unlinked now cutoff p s in
    let (n, s₂) = flag_all now cutoff ps s₁ in ((if changed then suc n else n), s₂)

-- flagUnlinkedGopayCheckoutsForReview: how many were flagged.
unfoldable pub flag_unlinked_checkouts : ℕ → ℕ → Store → ℕ × Store
unfolding flag_all find_many
flag_unlinked_checkouts now recovery_minutes s =
    let cutoff = now - recovery_minutes * 60000 in
    flag_all now cutoff (take 200 (find_many (unlinked_since cutoff) s.payments)) s

-- The payments to ask GoPay about.
abbrev linked_before : ℕ → Payment → Bool
linked_before cutoff p =
    is_gopay p.provider && is_some p.provider_payment_id && leb p.updated_at cutoff

unfoldable pub candidates : ℕ → ℕ → ℕ → ℕ → List Payment → List Payment
unfolding find_many sort_by
candidates now recovery_minutes limit paid_recovery_minutes ps =
    let bounded = min 100 (max 1 limit) in
    take bounded (
      sort_by (λ p. p.updated_at)
        (find_many (λ p. is_payable p.status && linked_before (now - recovery_minutes * 60000) p)
          ps))
    ++ take (min 5 bounded) (
        sort_by (λ p. p.updated_at)
          (find_many
            (λ p. is_paid p.status && linked_before (now - max 5 paid_recovery_minutes * 60000) p)
            ps))

-- The counts of a run.
pub record Tally : Type 0 where
  pub reconciled : ℕ
  pub settled : ℕ
  pub errors : ℕ

abbrev settles : ProviderState → Bool
settles gopay_paid = true
settles gopay_canceled = true
settles gopay_timeouted = true
settles gopay_refunded = true
settles _ = false

-- The touch of a payment whose check failed, unless it was written since it was read.
unfoldable pub touch_failed : ℕ → Payment → Store → Store
unfolding update_where
touch_failed now p s = record s {
  payments =
      update_where
        (λ q.
          q.id == p.id
          && (is_payable q.status || is_paid q.status)
          && is_some q.provider_payment_id
          && q.updated_at == p.updated_at)
        (λ q. record q {
          payload = record p.payload {
            recovery_last_attempt_at = some now;
            recovery_verified = some false;
          };
          updated_at = now;
        })
        s.payments;
}

abbrev counted : Result CommerceError ProviderState → Tally → Tally
counted (ok state) t = record t {
  reconciled = suc t.reconciled;
  settled = if settles state then suc t.settled else t.settled;
}
counted (throws e) t = record t { errors = suc t.errors }

abbrev swept : ℕ → Payment → Result CommerceError ProviderState → Store → Store
swept now p (ok state) s = s
swept now p (throws e) s = touch_failed now p s

unfoldable pub recover_all : Config → ℕ → ℕ → AskStatus → List Payment → Store → Tally × Store
unfolding touch_failed reconcile_gopay
recover_all cfg now worker ask [] s = (record { reconciled = 0; settled = 0; errors = 0 }, s)
recover_all cfg now worker ask (p ∷ ps) s =
    let (r, s₁) = reconcile_gopay cfg now worker ask p.id none s in
    let (t, s₂) = recover_all cfg now (suc worker) ask ps (swept now p r s₁) in (counted r t, s₂)

-- reconcilePendingGopayPayments.
unfoldable pub reconcile_pending : Config → ℕ → ℕ → AskStatus → ℕ → ℕ → ℕ → Store → Tally × Store
unfolding recover_all candidates
reconcile_pending cfg now worker ask recovery_minutes limit paid_recovery_minutes s =
    recover_all cfg now worker ask
      (candidates now recovery_minutes limit paid_recovery_minutes s.payments) s
