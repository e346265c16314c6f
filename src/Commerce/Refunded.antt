-- ===== src/Commerce/Refunded.antt =====
-- What recordGopayRefund guarantees: the payment's subscriptions end, the inverter's deactivation is
-- queued, and a repeated notification changes nothing.
use spottex_test.Common.{
  ℕ, ◌≡◌, refl, sym, ◌∙◌, ap, ap₂, ◌<◌, subst, true, false, none, some, List, [], ◌∷◌, ◌++◌, arith,
  ==_refl, find_first, row, has_number, ok, Option-cases, inl, inr, ◌⊎◌,
}
use spottex_test.Jobs.Model.{
  Job, JobKey, Event, deactivation, gopay_refund, has_key, job_key_eq, new_job,
}
use spottex_test.Commerce.Model.{Payment, PaymentStatus, paid, refunded, Payload, Subscription}
use spottex_test.Commerce.Store.{
  Store, is_refunded, is_refundable, merge, find_payment, find-write_payment, enqueue_deactivation,
  upsert_job,
}
use spottex_test.Commerce.Terminal.{cancel_subscriptions, refund_paid, record_refund}

abbrev refund_event : Payment → JobKey
refund_event p = deactivation p.user_id (gopay_refund p.id)

-- The job with this key is in the table, and is the one that the lookup finds.
abbrev pub Queued : JobKey → Job → Store → Type 0
Queued k j s = find_first (has_key k) s.jobs ≡ some j

find_first-append :
    (k : JobKey) (js : List Job) (j : Job)
    → find_first (has_key k) js ≡ none
    → job_key_eq j.key k ≡ true
    → find_first (has_key k) (js ++ j ∷ []) ≡ some j
unfolding find_first
find_first-append k [] j h e = ground arith
find_first-append k (x ∷ js) j h e = ground (arith, find_first-append k js j)

pub deactivation_key_refl :
    (u i : ℕ)
    → job_key_eq (deactivation u (gopay_refund i)) (deactivation u (gopay_refund i)) ≡ true
unfolding job_key_eq
deactivation_key_refl u i = ground (arith, ==_refl u, ==_refl i)

-- An enqueued deactivation is found afterwards; the payments and subscriptions are left alone.
record Enqueued (k : JobKey) (j : Job) (s s' : Store) : Type 0 where
  found : Queued k j s'
  payments : s'.payments ≡ s.payments
  subscriptions : s'.subscriptions ≡ s.subscriptions

upsert_job-Enqueued :
    (now u i : ℕ) (s : Store)
    → let (j, s') = upsert_job (deactivation u (gopay_refund i)) now s in
      Enqueued (deactivation u (gopay_refund i)) j s s'
unfolding upsert_job
upsert_job-Enqueued now u i s =
    elim (Option-cases (find_first (has_key (deactivation u (gopay_refund i))) s.jobs)) [
      | inl new ↦
          rw (new, upsert_job)
            (record {
              found =
                  find_first-append (deactivation u (gopay_refund i)) s.jobs
                    (new_job s.next_id (deactivation u (gopay_refund i)) now) new
                    (deactivation_key_refl u i);
              payments = refl;
              subscriptions = refl;
            })
      | inr (j, there) ↦
          rw (there, upsert_job) (record { found = there; payments = refl; subscriptions = refl })
    ]

enqueues :
    (now u : ℕ) (v : Event) (s : Store) (r : Job × Store)
    → enqueue_deactivation now u v s ≡ ok r
    → r ≡ upsert_job (deactivation u v) now s
unfolding enqueue_deactivation
enqueues now u v s r h = ground arith

enqueue-Enqueued :
    (now u i : ℕ) (s : Store) (j : Job) (s' : Store)
    → enqueue_deactivation now u (gopay_refund i) s ≡ ok (j, s')
    → Enqueued (deactivation u (gopay_refund i)) j s s'
enqueue-Enqueued now u i s j s' h =
    subst (λ x. Enqueued (deactivation u (gopay_refund i)) x.0 s x.1)
      (sym (enqueues now u (gopay_refund i) s (j, s') h)) (upsert_job-Enqueued now u i s)

-- No subscription of the payment is ACTIVE, TRIAL or PAST_DUE.
abbrev pub Ended : ℕ → List Subscription → Type 0
Ended i [] = Unit {0}
Ended i (x ∷ xs) = (has_number x.payment_id i ≡ true → is_refundable x.status ≡ false) × Ended i xs

cancel_subscriptions-Ended :
    (now i : ℕ) (xs : List Subscription) → Ended i (cancel_subscriptions now i xs)
unfolding cancel_subscriptions
cancel_subscriptions-Ended now i [] = tt
cancel_subscriptions-Ended now i (x ∷ xs) = (ground arith, cancel_subscriptions-Ended now i xs)

refund_paid-Ended :
    (now : ℕ) (payload : Payload) (p : Payment) (s : Store)
    → Ended p.id (refund_paid now payload p s).subscriptions
unfolding refund_paid
refund_paid-Ended now payload p s = cancel_subscriptions-Ended now p.id s.subscriptions

find-refund_paid :
    (now i : ℕ) (payload : Payload) (p : Payment) (s : Store)
    → find_payment i s ≡ some p
    → find_payment i (refund_paid now payload p s)
      ≡ some (record p { status = refunded; payload = merge p.payload payload; updated_at = now })
unfolding refund_paid
find-refund_paid now i payload p s h =
    find-write_payment now i p.id
      (λ q. record q { status = refunded; payload = merge p.payload payload }) s (λ x. refl) h
    ∙ ground (arith, ==_refl p.id)

is_refunded_only : (x : PaymentStatus) → is_refunded x ≡ true → x ≡ refunded
is_refunded_only x h = ground arith

-- The cases of a recorded refund.
refunds :
    (now i : ℕ) (payload : Payload) (s : Store) (r : Job × Store) (p : Payment)
    → find_payment i s ≡ some p
    → record_refund now i payload s ≡ ok r
    → ((p.status ≡ refunded) × (enqueue_deactivation now p.user_id (gopay_refund p.id) s ≡ ok r))
      ⊎ ((p.status ≡ paid)
          × (enqueue_deactivation now p.user_id (gopay_refund p.id) (refund_paid now payload p s)
              ≡ ok r))
unfolding record_refund
refunds now i payload s r p found h = ground arith

-- What a recorded refund leaves.
pub record Refunded (i : ℕ) (p : Payment) (j : Job) (s s' : Store) : Type 0 where
  pub was_settled : (p.status ≡ paid) ⊎ (p.status ≡ refunded)
  pub payment' : Payment
  pub found' : find_payment i s' ≡ some payment'
  pub is_refunded' : payment'.status ≡ refunded
  pub same_id : payment'.id ≡ p.id
  pub same_user : payment'.user_id ≡ p.user_id
  pub queued : Queued (refund_event p) j s'
  pub ended : p.status ≡ paid → Ended p.id s'.subscriptions

-- A recorded refund was of a payment that is PAID or REFUNDED. It leaves the payment REFUNDED and the
-- deactivation job of its user and this refund in the queue; and if the payment was PAID, none of its
-- subscriptions is ACTIVE, TRIAL or PAST_DUE afterwards.
pub refund_outcome :
    (now i : ℕ) (payload : Payload) (s s' : Store) (j : Job) (p : Payment)
    → find_payment i s ≡ some p
    → record_refund now i payload s ≡ ok (j, s')
    → Refunded i p j s s'
refund_outcome now i payload s s' j p found h = elim (refunds now i payload s (j, s') p found h) [
  | inl (old, e) ↦
      let q = enqueue-Enqueued now p.user_id p.id s j s' e in
      record {
        was_settled = inr old;
        payment' = p;
        found' = ap (row (λ x. x.id) i) q.payments ∙ found;
        is_refunded' = old;
        same_id = refl;
        same_user = refl;
        queued = q.found;
        ended = λ h. absurd (ground arith);
      }
  | inr (old, e) ↦
      let q = enqueue-Enqueued now p.user_id p.id (refund_paid now payload p s) j s' e in
      record {
        was_settled = inl old;
        payment' = record p {
          status = refunded;
          payload = merge p.payload payload;
          updated_at = now;
        };
        found' = ap (row (λ x. x.id) i) q.payments ∙ find-refund_paid now i payload p s found;
        is_refunded' = refl;
        same_id = refl;
        same_user = refl;
        queued = q.found;
        ended = λ h. subst (Ended p.id) (sym q.subscriptions) (refund_paid-Ended now payload p s);
      }
]

enqueue_again :
    (now u i : ℕ) (s : Store) (j : Job)
    → 0 < u
    → Queued (deactivation u (gopay_refund i)) j s
    → enqueue_deactivation now u (gopay_refund i) s ≡ ok (j, s)
unfolding enqueue_deactivation upsert_job
enqueue_again now u i s j pos h = ground arith

refund_again :
    (now i : ℕ) (payload : Payload) (s : Store) (q : Payment)
    → find_payment i s ≡ some q
    → q.status ≡ refunded
    → record_refund now i payload s ≡ enqueue_deactivation now q.user_id (gopay_refund q.id) s
unfolding record_refund
refund_again now i payload s q found h = rw (found, h)

-- Recording a refund is idempotent: a second notification returns the same job and leaves the whole
-- store as it is, so the inverter is switched off by one job.
pub refund_idempotent :
    (now later i : ℕ) (payload again : Payload) (s s' : Store) (j : Job) (p : Payment)
    → find_payment i s ≡ some p
    → record_refund now i payload s ≡ ok (j, s')
    → 0 < p.user_id
    → record_refund later i again s' ≡ ok (j, s')
refund_idempotent now later i payload again s s' j p found h pos =
    let r = refund_outcome now i payload s s' j p found h in
    refund_again later i again s' r.payment' r.found' r.is_refunded'
    ∙ ap₂ (λ u k. enqueue_deactivation later u (gopay_refund k) s') r.same_user r.same_id
    ∙ enqueue_again later p.user_id p.id s' j pos r.queued
