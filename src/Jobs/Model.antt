-- ===== src/Jobs/Model.antt =====
-- The rows of `jobs.scheduled_job` and `jobs.email_outbox`, with the upserts that write them. A key
-- is compared as the values that its text is made of (and hashed from); a mail's text is not modelled.
use spottex_test.Common.{ℕ, Bool, true, false, ◌&&◌, ◌||◌, Option, none, List, [], ◌∷◌, ◌==◌}

pub data JobStatus : Type 0 where
  pending running succeeded failed canceled : JobStatus

-- The event of a deactivation: `gopay-refund:`, `subscription-user-cancel:`, `subscription-expired:`.
pub data Event : Type 0 where
  gopay_refund user_cancel subscription_expired : ℕ → Event

-- `idempotencyKey`; a deactivation's is of the user and the event.
pub data JobKey : Type 0 where
  energy_analysis : ℕ → JobKey
  deactivation : ℕ → Event → JobKey
  runner_lease : JobKey

-- `lastError`: the claim's owner while it runs, a message otherwise.
pub data Note : Type 0 where
  owner : ℕ → Note
  recovered_note unconfirmed_note : Note

pub record Job : Type 0 where
  pub id : ℕ
  pub key : JobKey
  pub status : JobStatus
  pub run_at : ℕ
  pub attempts : ℕ
  pub locked_at : Option ℕ
  pub last_error : Option Note
  pub completed_at : Option ℕ

pub data MailKey : Type 0 where
  payment_confirmation : ℕ → MailKey
  fresh_analysis_required : ℕ → ℕ → MailKey
  renewal_notice renewal_failed : ℕ → MailKey

pub record Mail : Type 0 where
  pub id : ℕ
  pub key : MailKey
  pub to_user : ℕ
  pub status : JobStatus
  pub attempts : ℕ
  pub send_at : ℕ
  pub updated_at : ℕ
  pub sent_at : Option ℕ
  pub redacted : Bool

abbrev pub event_eq : Event → Event → Bool
event_eq (gopay_refund i) (gopay_refund j) = i == j
event_eq (user_cancel i) (user_cancel j) = i == j
event_eq (subscription_expired i) (subscription_expired j) = i == j
event_eq _ _ = false

unfoldable pub job_key_eq : JobKey → JobKey → Bool
job_key_eq (energy_analysis i) (energy_analysis j) = i == j
job_key_eq (deactivation u e) (deactivation v f) = u == v && event_eq e f
job_key_eq runner_lease runner_lease = true
job_key_eq _ _ = false

unfoldable pub mail_key_eq : MailKey → MailKey → Bool
mail_key_eq (payment_confirmation i) (payment_confirmation j) = i == j
mail_key_eq (fresh_analysis_required i a) (fresh_analysis_required j b) = i == j && a == b
mail_key_eq (renewal_notice i) (renewal_notice j) = i == j
mail_key_eq (renewal_failed i) (renewal_failed j) = i == j
mail_key_eq _ _ = false

abbrev pub has_key : JobKey → Job → Bool
has_key k j = job_key_eq j.key k

abbrev pub new_job : ℕ → JobKey → ℕ → Job
new_job id key run_at = record {
  id = id;
  key = key;
  status = pending;
  run_at = run_at;
  attempts = 0;
  locked_at = none;
  last_error = none;
  completed_at = none;
}

abbrev pub new_mail : ℕ → MailKey → ℕ → ℕ → Mail
new_mail id key to_user now = record {
  id = id;
  key = key;
  to_user = to_user;
  status = pending;
  attempts = 0;
  send_at = now;
  updated_at = now;
  sent_at = none;
  redacted = false;
}

-- Whether a mail with the key is in the outbox.
unfoldable pub has_mail : MailKey → List Mail → Bool
unfolding mail_key_eq
has_mail k [] = false
has_mail k (x ∷ xs) = mail_key_eq x.key k || has_mail k xs
