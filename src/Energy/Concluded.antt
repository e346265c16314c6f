-- ===== src/Energy/Concluded.antt =====
-- What a finished deactivation job means.
use spottex_test.Common.{ℕ, suc, ◌-◌, ◌^◌, ◌≤◌, List, ◌≡◌, ◌⊎◌, true, false, some, min, arith}
use native.Mathlib.Nat.{one-le-pow, pow-le-pow_right}
use spottex_test.Jobs.Model.{Job}
use spottex_test.Commerce.Model.{Subscription}
use spottex_test.Commerce.Store.{Store}
use spottex_test.Commerce.Entitlement.{Directory, has_entitlement}
use spottex_test.Energy.Deactivation.{
  Deactivate, Attempt, Execution, skipped_entitled, confirmed, after_deactivation, user_of,
  retry_delay_ms,
}

-- How a job may succeed: nothing was sent, as the user is entitled, or the switch-off was sent, at this
-- attempt and for this job's user, who is not entitled, and answered that no unit failed.
abbrev pub SafeAt : Directory → Deactivate → ℕ → ℕ → Job → List Subscription → Execution → Type 0
SafeAt d deactivate now attempt j xs e =
    ((e ≡ skipped_entitled) × (has_entitlement d now (user_of j.key) xs ≡ true))
    ⊎ ((a : Attempt) × (e ≡ confirmed a)
        × (t : Store) × (t.subscriptions ≡ xs)
        × ((deactivate (user_of j.key) j.id attempt t).0 ≡ some a)
        × (a.failed ≡ 0)
        × (has_entitlement d now (user_of j.key) xs ≡ false))

abbrev pub Safe : Directory → Deactivate → ℕ → Job → Store → Execution → Type 0
Safe d deactivate now j s e = SafeAt d deactivate now (suc j.attempts) j s.subscriptions e

-- The executions that let a job succeed.
abbrev Finishes : Execution → Type 0
Finishes e = (e ≡ skipped_entitled) ⊎ ((a : Attempt) × (e ≡ confirmed a))

abbrev Ran : Directory → Deactivate → ℕ → Job → ℕ → ℕ → Store → Store → Execution → Type 0
Ran d deactivate now j worker attempt s s' e =
    ((e ≡ skipped_entitled) × (has_entitlement d now (user_of j.key) s.subscriptions ≡ true))
    ⊎ ((has_entitlement d now (user_of j.key) s.subscriptions ≡ false)
        × (after_deactivation now j.id worker (deactivate (user_of j.key) j.id attempt s).0
              (deactivate (user_of j.key) j.id attempt s).1
            ≡ (e, s')))

doubles : (attempt : ℕ) → 2 ^ min 10 (attempt - 1) ≤ 2 ^ min 10 (suc attempt - 1)
doubles attempt = pow-le-pow_right (omega arith) (omega arith)

-- The retry delay is between half a minute and six hours, and does not shrink as the attempts grow.
pub retry_delay_bounds :
    (attempt : ℕ)
    → (30000 ≤ retry_delay_ms attempt)
      × (retry_delay_ms attempt ≤ 21600000)
      × (retry_delay_ms attempt ≤ retry_delay_ms (suc attempt))
unfolding retry_delay_ms
retry_delay_bounds attempt =
    let up = doubles attempt in
    let low = one-le-pow (min 10 (attempt - 1)) 2 (omega arith) in
    (omega (arith, low), omega arith, omega (arith, up))
