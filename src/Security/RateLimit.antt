-- ===== src/Security/RateLimit.antt =====
-- consumeRateLimit of src/lib/security/rate-limit.ts, on the bucket of one key (a scope with an address
-- or an identity; its hash is not modelled).
use spottex_test.Common.{
  ℕ, suc, ◌+◌, ◌-◌, ◌*◌, ◌/◌, ◌≤◌, ◌<◌, ◌≡◌, max, Bool, true, false, Option, none, some, List, [],
  ◌∷◌, leb, if◌then◌else◌, arith,
}

pub record Bucket : Type 0 where
  pub count : ℕ
  pub expires_at : ℕ

-- The answer, and the bucket after it.
pub record Answer : Type 0 where
  pub allowed : Bool
  pub retry_after_seconds : ℕ
  pub bucket : Bucket

-- `Math.ceil(ms / 1000)`.
abbrev pub seconds : ℕ → ℕ
seconds ms = (ms + 999) / 1000

abbrev pub fresh_bucket : ℕ → ℕ → Answer
fresh_bucket now window = record {
  allowed = true;
  retry_after_seconds = seconds window;
  bucket = record { count = 1; expires_at = now + window };
}

abbrev pub used_bucket : ℕ → ℕ → Bucket → Answer
used_bucket now limit b =
    if leb limit b.count
    then record {
      allowed = false;
      retry_after_seconds = max 1 (seconds (b.expires_at - now));
      bucket = b;
    }
    else record {
      allowed = true;
      retry_after_seconds = max 1 (seconds (b.expires_at - now));
      bucket = record b { count = suc b.count };
    }

unfoldable pub consume_rate_limit : ℕ → ℕ → ℕ → Option Bucket → Answer
consume_rate_limit now window limit none = fresh_bucket now window
consume_rate_limit now window limit (some b) =
    if leb b.expires_at now then fresh_bucket now window else used_bucket now limit b

-- How many of a list of requests, by their times, are allowed.
unfoldable pub count_allowed : ℕ → ℕ → List ℕ → Bucket → ℕ
unfolding consume_rate_limit
count_allowed window limit [] b = 0
count_allowed window limit (t ∷ ts) b =
    let a = consume_rate_limit t window limit (some b) in
    let rest = count_allowed window limit ts a.bucket in if a.allowed then suc rest else rest

-- All requests come before the bucket expires.
abbrev pub AllBefore : ℕ → List ℕ → Type 0
AllBefore e [] = Unit {0}
AllBefore e (t ∷ ts) = (t < e) × AllBefore e ts

-- Until a bucket expires, no more requests are allowed than the limit leaves, in any order and number:
-- with what the bucket has counted, if that is within the limit, they stay within the limit.
pub count_allowed-le :
    (window limit : ℕ) (ts : List ℕ) (b : Bucket)
    → AllBefore b.expires_at ts
    → b.count ≤ limit
    → b.count + count_allowed window limit ts b ≤ limit
unfolding count_allowed
count_allowed-le window limit [] b h le = omega arith
count_allowed-le window limit (t ∷ ts) b (h, hs) le =
    let same = count_allowed-le window limit ts b hs le in
    let more = count_allowed-le window limit ts (record b { count = suc b.count }) hs in
    ground (arith, same, more)

-- A refused client that waits for the seconds it is told is let in: at any time that many seconds later,
-- the next request is allowed, if no other came meanwhile.
pub refused_waits :
    (now later window limit : ℕ) (o : Option Bucket)
    → (consume_rate_limit now window limit o).allowed ≡ false
    → now + (consume_rate_limit now window limit o).retry_after_seconds * 1000 ≤ later
    → (consume_rate_limit later window limit
        (some (consume_rate_limit now window limit o).bucket)).allowed
      ≡ true
unfolding consume_rate_limit
refused_waits now later window limit none h le = cc
refused_waits now later window limit (some b) h le = ground arith
