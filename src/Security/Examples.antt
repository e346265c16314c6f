-- ===== src/Security/Examples.antt =====
-- Requests against a limit of two in a minute.
use spottex_test.Common.{◌≡◌, ◌+◌, ◌≤◌, refl, true, some, [], ◌∷◌, arith}
use spottex_test.Security.RateLimit.{
  Bucket, consume_rate_limit, count_allowed, count_allowed-le, refused_waits,
}

abbrev bucket : Bucket
bucket = record { count = 1; expires_at = 60000 }

abbrev full : Bucket
full = record { count = 2; expires_at = 60000 }

count_allowed-le_example : 1 + count_allowed 60000 2 (10 ∷ 20 ∷ 30 ∷ []) bucket ≤ 2
count_allowed-le_example =
    count_allowed-le 60000 2 (10 ∷ 20 ∷ 30 ∷ []) bucket
      (omega arith, (omega arith, (omega arith, tt))) (omega arith)

refused_waits_example :
    (consume_rate_limit 70000 60000 2
      (some (consume_rate_limit 100 60000 2 (some full)).bucket)).allowed
    ≡ true
unfolding consume_rate_limit
refused_waits_example = refused_waits 100 70000 60000 2 (some full) refl (omega arith)
