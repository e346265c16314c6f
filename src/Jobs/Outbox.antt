-- ===== src/Jobs/Outbox.antt =====
-- processEmailOutbox of src/lib/email.ts. The delivery of a mail is a parameter: whether it was
-- delivered, and the outbox when that is known.
use spottex_test.Common.{
  ℕ, suc, ◌+◌, Bool, true, false, ◌&&◌, some, List, [], ◌∷◌, ◌==◌, ltb, leb, if◌then◌else◌,
  update_where, count_where, find_many, sort_by, take,
}
use spottex_test.Jobs.Model.{Mail, JobStatus, pending, running, succeeded, failed}

abbrev pub Deliver : Type 0
Deliver = Mail → List Mail → Bool × List Mail

abbrev pub stale_mail_ms : ℕ
stale_mail_ms = 600000

abbrev pub is_waiting : JobStatus → Bool
is_waiting pending = true
is_waiting _ = false

abbrev pub is_underway : JobStatus → Bool
is_underway pending = false
is_underway running = true
is_underway _ = false

abbrev pub is_stale : ℕ → Mail → Bool
is_stale now m = is_underway m.status && ltb (m.updated_at + stale_mail_ms) now

-- A delivery that was interrupted is tried again, up to the fifth attempt.
unfoldable pub recover_mails : ℕ → List Mail → List Mail
unfolding update_where
recover_mails now ms =
    update_where (λ m. is_stale now m && leb 5 m.attempts)
      (λ m. record m { status = failed; updated_at = now })
      (update_where (λ m. is_stale now m && ltb m.attempts 5)
        (λ m. record m { status = pending; updated_at = now }) ms)

abbrev pub waits : ℕ → Mail → Bool
waits i m = m.id == i && is_waiting m.status

abbrev pub claim_mail : ℕ → Mail → Mail
claim_mail now m = record m { status = running; attempts = suc m.attempts; updated_at = now }

abbrev pub sent_mail : ℕ → Mail → Mail
sent_mail now m = record m {
  status = succeeded;
  sent_at = some now;
  redacted = true;
  updated_at = now;
}

-- A failed delivery, by the attempts that were read before the claim.
abbrev pub unsent_mail : ℕ → ℕ → Mail → Mail
unsent_mail now attempts m = record m {
  status = if leb 4 attempts then failed else pending;
  updated_at = now;
}

abbrev pub settle_mail : ℕ → Mail → Bool → List Mail → List Mail
settle_mail now m true ms = update_where (λ x. x.id == m.id) (sent_mail now) ms
settle_mail now m false ms = update_where (λ x. x.id == m.id) (unsent_mail now m.attempts) ms

-- One round of the loop, and whether a mail was sent.
unfoldable pub process_mail : ℕ → Deliver → Mail → List Mail → Bool × List Mail
unfolding count_where update_where
process_mail now deliver m ms =
    if count_where (waits m.id) ms == 0
    then (false, ms)
    else (let (done, ms') = deliver m (update_where (waits m.id) (claim_mail now) ms) in
        (done, settle_mail now m done ms'))

unfoldable pub process_mails : ℕ → Deliver → List Mail → List Mail → ℕ × List Mail
unfolding process_mail
process_mails now deliver [] ms = (0, ms)
process_mails now deliver (m ∷ rest) ms =
    let (done, ms₁) = process_mail now deliver m ms in
    let (n, ms₂) = process_mails now deliver rest ms₁ in ((if done then suc n else n), ms₂)

-- processEmailOutbox.
unfoldable pub process_outbox : ℕ → Deliver → ℕ → List Mail → ℕ × List Mail
unfolding process_mails recover_mails find_many sort_by
process_outbox now deliver limit ms =
    let ms' = recover_mails now ms in
    process_mails now deliver
      (take limit
        (sort_by (λ m. m.send_at) (find_many (λ m. is_waiting m.status && leb m.send_at now) ms')))
      ms'
