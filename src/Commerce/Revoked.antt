-- ===== src/Commerce/Revoked.antt =====
-- What revokeRecurringMandate of recurring.ts guarantees.
use spottex_test.Commerce.Model.{Renewal}
use spottex_test.Commerce.Store.{Store}
