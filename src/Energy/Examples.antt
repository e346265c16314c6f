-- ===== src/Energy/Examples.antt =====
-- A deactivation job of a user without a subscription.
use spottex_test.Common.{◌≤◌, true, some, [], ◌∷◌, suc}
use spottex_test.Jobs.Model.{Job, new_job, deactivation, gopay_refund}
use spottex_test.Commerce.Store.{Store}
use spottex_test.Commerce.Entitlement.{Directory}
use spottex_test.Commerce.Examples.{shop}
use spottex_test.Energy.Deactivation.{Deactivate, Attempt, process_job, retry_delay_ms}
use spottex_test.Energy.Concluded.{retry_delay_bounds}

abbrev directory : Directory
directory = record { is_active_user = λ i. true; control_product = 5; control_active = true }

abbrev switched : Attempt
switched = record { attempted = 2; failed = 0 }

abbrev switch_off : Deactivate
switch_off user job attempt s = (some switched, s)

abbrev job : Job
job = new_job 90 (deactivation 1 (gopay_refund 10)) 0

abbrev queue : Store
queue = record shop { jobs = job ∷ [] }

abbrev after : Store
unfolding process_job
after = (process_job directory switch_off 1000 7 job queue).1

retry_delay_bounds_example :
    (30000 ≤ retry_delay_ms 3)
    × (retry_delay_ms 3 ≤ 21600000)
    × (retry_delay_ms 3 ≤ retry_delay_ms (suc 3))
retry_delay_bounds_example = retry_delay_bounds 3
