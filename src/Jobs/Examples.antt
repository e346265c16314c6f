-- ===== src/Jobs/Examples.antt =====
-- A mail that is delivered at its last attempt.
use spottex_test.Common.{refl, false, none, [], ◌∷◌, arith}
use spottex_test.Jobs.Model.{Mail, pending, payment_confirmation}
use spottex_test.Jobs.Outbox.{process_mail}
use spottex_test.Jobs.Attempts.{AllWithin, process_mail-AllWithin}

abbrev mail : Mail
mail = record {
  id = 1;
  key = payment_confirmation 10;
  to_user = 1;
  status = pending;
  attempts = 4;
  send_at = 0;
  updated_at = 0;
  sent_at = none;
  redacted = false;
}

process_mail-AllWithin_example :
    AllWithin (process_mail 100 (λ m ms. (false, ms)) mail (mail ∷ [])).1
process_mail-AllWithin_example =
    process_mail-AllWithin 100 (λ m ms. (false, ms)) mail (mail ∷ []) (λ x xs. refl) refl
      (omega arith) ((λ e. refl), tt) (omega arith, tt)
