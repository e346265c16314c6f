-- ===== src/Consultation/Calendar/Backoff.antt =====
-- The delays of the two queues of durable jobs: src/lib/consultation/calendar-sync.ts and
-- src/lib/energy/deactivation.ts.
use native.Mathlib.Nat.{pow-le-pow_right}
use spottex_test.Common.{ℕ, ◌-◌, ◌≤◌, ◌≡◌, ◌⊎◌, inl, inr, min, refl, arith}
use spottex_test.Energy.Deactivation.{retry_delay_ms}
use spottex_test.Consultation.Calendar.Worker.{calendar_retry_delay_ms}

up_to_ten : (n : ℕ) → (min 10 n ≡ n) ⊎ ((min 10 n ≡ 10) × (10 ≤ n))
up_to_ten n = ground arith

-- The two queues wait equally long after the same number of attempts: the calendar's delay, whose
-- exponent is not bounded, is the deactivation's, whose exponent stops at ten.
pub retry_delay_eq : (attempt : ℕ) → calendar_retry_delay_ms attempt ≡ retry_delay_ms attempt
unfolding calendar_retry_delay_ms retry_delay_ms
retry_delay_eq attempt = elim (up_to_ten (attempt - 1)) [
  | inl e ↦ rw e refl
  | inr (e, le) ↦ let low = pow-le-pow_right {n = 2} (omega arith) le in rw e (omega (arith, low))
]
