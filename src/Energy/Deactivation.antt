-- ===== src/Energy/Deactivation.antt =====
-- src/lib/energy/deactivation-jobs.ts: the worker that switches inverters off once their user's
-- entitlement is gone.
use spottex_test.Common.{
  ℕ, suc, ◌+◌, ◌-◌, ◌*◌, ◌^◌, min, max, Bool, true, false, ◌&&◌, Option, none, some, List, [], ◌∷◌,
  ◌==◌, ltb, leb, if◌then◌else◌, find_many, update_where, count_where, sort_by, take,
}
use spottex_test.Jobs.Model.{
  JobStatus, pending, running, succeeded, Job, JobKey, deactivation, Note, owner, recovered_note,
  unconfirmed_note,
}
use spottex_test.Commerce.Store.{Store, log, inverter_deactivation_skipped_entitled}
use spottex_test.Commerce.Entitlement.{Directory, has_entitlement}

abbrev pub stale_lock_ms : ℕ
stale_lock_ms = 600000

-- retryDelayMs: doubling from 30 seconds, up to six hours.
unfoldable pub retry_delay_ms : ℕ → ℕ
retry_delay_ms attempt = min 21600000 (30000 * 2 ^ min 10 (attempt - 1))

abbrev pub is_pending_job : JobStatus → Bool
is_pending_job pending = true
is_pending_job _ = false

abbrev pub is_running_job : JobStatus → Bool
is_running_job pending = false
is_running_job running = true
is_running_job _ = false

-- `type: INVERTER_DEACTIVATION_JOB`.
abbrev pub is_deactivation : JobKey → Bool
is_deactivation (deactivation u e) = true
is_deactivation _ = false

-- `payload.userId`.
abbrev pub user_of : JobKey → ℕ
user_of (deactivation u e) = u
user_of _ = 0

abbrev pub owned_by : Option Note → ℕ → Bool
owned_by (some (owner o)) w = o == w
owned_by _ w = false

-- The claim that a worker holds: RUNNING, under its owner mark.
abbrev pub claims : ℕ → ℕ → Job → Bool
claims id worker j = j.id == id && is_running_job j.status && owned_by j.last_error worker

-- What `deactivateInverterControl` of src/lib/energy/service.ts reports: how many units it attempted
-- and how many failed, or that it threw; the store after it holds what others did meanwhile.
pub record Attempt : Type 0 where
  pub attempted : ℕ
  pub failed : ℕ

abbrev pub Deactivate : Type 0
Deactivate = ℕ → ℕ → ℕ → Store → Option Attempt × Store

abbrev set_jobs : (List Job → List Job) → Store → Store
set_jobs f s = record s { jobs = f s.jobs }

-- The rows that a heartbeat touches.
abbrev pub beats : ℕ → ℕ → Job → Bool
beats id worker j = is_deactivation j.key && claims id worker j

-- heartbeatJob: `none` is the error INVERTER_DEACTIVATION_JOB_CLAIM_LOST.
unfoldable pub heartbeat : ℕ → ℕ → ℕ → Store → Option Store
unfolding count_where update_where
heartbeat now id worker s =
    if count_where (beats id worker) s.jobs == 0
    then none
    else some (set_jobs (update_where (beats id worker) (λ j. record j { locked_at = some now })) s)

-- How an execution ends.
pub data Execution : Type 0 where
  skipped_entitled claim_lost unconfirmed : Execution
  confirmed : Attempt → Execution

unfoldable pub after_deactivation : ℕ → ℕ → ℕ → Option Attempt → Store → Execution × Store
after_deactivation now id worker none s = (unconfirmed, s)
after_deactivation now id worker (some a) s = elim (heartbeat now id worker s) [
  | none ↦ (claim_lost, s)
  | some s' ↦ if ltb 0 a.failed then (unconfirmed, s') else (confirmed a, s')
]

-- executeDeactivationJob.
unfoldable pub execute : Directory → Deactivate → ℕ → Job → ℕ → ℕ → Store → Execution × Store
unfolding after_deactivation
execute d deactivate now j worker attempt s = elim (heartbeat now j.id worker s) [
  | none ↦ (claim_lost, s)
  | some s₁ ↦
      if has_entitlement d now (user_of j.key) s₁.subscriptions
      then (skipped_entitled, log (user_of j.key) inverter_deactivation_skipped_entitled j.id s₁)
      else (let (a, s₂) = deactivate (user_of j.key) j.id attempt s₁ in
          after_deactivation now j.id worker a s₂)
]

-- The write of a finished job, under the worker's claim; `false` if the claim is lost.
unfoldable pub complete : ℕ → ℕ → ℕ → Store → Bool × Store
unfolding count_where update_where
complete now id worker s = (
  ltb 0 (count_where (claims id worker) s.jobs),
  set_jobs
      (update_where (claims id worker) (λ j. record j {
        status = succeeded;
        locked_at = none;
        completed_at = some now;
        last_error = none;
      }))
      s,
)

unfoldable pub reschedule : ℕ → ℕ → ℕ → ℕ → Store → Bool × Store
unfolding count_where update_where retry_delay_ms
reschedule now id worker attempt s = (
  ltb 0 (count_where (claims id worker) s.jobs),
  set_jobs
      (update_where (claims id worker) (λ j. record j {
        status = pending;
        run_at = now + retry_delay_ms attempt;
        locked_at = none;
        last_error = some unconfirmed_note;
      }))
      s,
)

-- The outcome of one round of the loop.
pub data Outcome : Type 0 where
  not_claimed lost : Outcome
  succeeded_with : Execution → Outcome
  retried : Outcome

unfoldable pub conclude : ℕ → Job → ℕ → ℕ → Execution × Store → Outcome × Store
unfolding complete reschedule
conclude now j worker attempt (claim_lost, s) = (lost, s)
conclude now j worker attempt (unconfirmed, s) =
    let (done, s') = reschedule now j.id worker attempt s in ((if done then retried else lost), s')
conclude now j worker attempt (e, s) =
    let (done, s') = complete now j.id worker s in ((if done then succeeded_with e else lost), s')

-- The claim: only a job that is still PENDING.
unfoldable pub claim_job : ℕ → ℕ → ℕ → Store → Option Store
unfolding count_where update_where
claim_job now id worker s =
    if count_where (λ j. j.id == id && is_pending_job j.status) s.jobs == 0
    then none
    else some (
        set_jobs
          (update_where (λ j. j.id == id && is_pending_job j.status)
            (λ j. record j {
              status = running;
              locked_at = some now;
              attempts = suc j.attempts;
              completed_at = none;
              last_error = some (owner worker);
            }))
          s)

-- One round of the loop; each round has a fresh owner mark.
unfoldable pub process_job : Directory → Deactivate → ℕ → ℕ → Job → Store → Outcome × Store
process_job d deactivate now worker j s = elim (claim_job now j.id worker s) [
  | none ↦ (not_claimed, s)
  | some s' ↦
      conclude now j worker (suc j.attempts) (execute d deactivate now j worker (suc j.attempts) s')
]

unfoldable pub process_all :
    Directory → Deactivate → ℕ → ℕ → List Job → Store → List Outcome × Store
process_all d deactivate now worker [] s = ([], s)
process_all d deactivate now worker (j ∷ js) s =
    let (o, s₁) = process_job d deactivate now worker j s in
    let (os, s₂) = process_all d deactivate now (suc worker) js s₁ in (o ∷ os, s₂)

-- Jobs whose worker stopped are PENDING again.
unfoldable pub recover_stale : ℕ → Store → Store
unfolding update_where
recover_stale now s =
    set_jobs
      (update_where
        (λ j.
          is_deactivation j.key
          && is_running_job j.status
          && (elim j.locked_at [ none ↦ false | some at ↦ ltb (at + stale_lock_ms) now ]))
        (λ j. record j {
          status = pending;
          run_at = now;
          locked_at = none;
          last_error = some recovered_note;
        }))
      s

-- processInverterDeactivationJobs; `chosen` is the filter on `options.jobIds`.
unfoldable pub process_jobs :
    Directory → Deactivate → ℕ → ℕ → (ℕ → Bool) → ℕ → Store → List Outcome × Store
unfolding find_many sort_by recover_stale
process_jobs d deactivate now worker chosen limit s =
    let s' = recover_stale now s in
    process_all d deactivate now worker
      (take (min 10 (max 1 limit)) (
        sort_by (λ j. j.run_at)
          (find_many
            (λ j.
              is_deactivation j.key && is_pending_job j.status && leb j.run_at now && chosen j.id)
            s'.jobs)))
      s'
