-- ===== src/Lib.antt =====
-- Payments, carts, subscriptions, yearly renewals, mails, consultation bookings with their calendar,
-- and the inverter switch-off of the Spottex platform.
--
-- The commerce code (src/lib/commerce) turns a cart into a payment, a paid payment into
-- subscriptions, an invoice and a mandate for yearly charges, and undoes this on a refund. The
-- refund queues a job of src/lib/energy/deactivation-jobs.ts that switches the user's inverters off
-- once no subscription entitles the user. The consultation code (src/lib/consultation and its
-- routes) sells nothing: a guest holds, confirms, moves and cancels a slot of a host, and durable jobs
-- of the same table write and delete the event in the host's calendar at Google.
--
-- Files:
--   Common: results of code that throws, options, and tables as lists with the queries that the code
--     makes through Prisma.
--   Jobs/Model: rows of scheduled jobs and of the mail outbox.
--   Commerce/Model, Commerce/Store: the rows of prisma/schema.prisma, the store of all tables, and
--     the writes that several operations share (queueEmail, enqueueInverterDeactivationJob).
--   Commerce/Policy: recurring-policy.ts, service-offer.ts, free-access.ts, productFreeTrialDays.
--   Commerce/Settle, Grant, Finalize: finalizePaidPayment of payment.ts, in the order of its steps.
--   Commerce/Carts: cart.ts and reopenCartIfPossible. Commerce/Terminal: cancelTerminalGopayPayment
--     and recordGopayRefund. Commerce/Gateway, Reconcile: safeGopayGatewayUrl and reconcileGopay.
--   Commerce/Entitlement: entitlement.ts and promo.ts.
--   Energy/Deactivation: the worker of deactivation-jobs.ts; Energy/Concluded: proofs.
--   Commerce/Checkout, Purchase: createCheckout. Commerce/Recovery: the review flag of unlinked
--     payments and the recovery loop over payments of GoPay.
--   Commerce/Schedule, Renewal, Attempt: recurring.ts in full, but for the request that voids a
--     recurrence and the counts that are only reported.
--   Commerce/CheckedOut, Pricing: proofs.
--   Jobs/Outbox: processEmailOutbox of src/lib/email.ts; Jobs/Attempts: proofs.
--   Security/RateLimit: consumeRateLimit of src/lib/security/rate-limit.ts, with its proofs.
--   Consultation/Model: slots, bookings, host calendars, calendar jobs and mails as one desk.
--   Consultation/Mails: the queue functions of src/lib/consultation/service.ts.
--   Consultation/Holding, Verify, Cancel, Reschedule: releaseExpiredConsultationHolds and the routes
--     bookings, verify, cancel and reschedule of src/app/api/consultations. Consultation/Slots: the
--     slots and bookings of hosts (src/app/api/admin/consultations) and the availability route.
--   Consultation/Calendar/State, Disconnect: calendar-state.ts and the routes disconnect and callback
--     of src/app/api/admin/google-calendar. Queue, Worker: calendar-sync.ts. Google: the requests of
--     google-calendar.ts. OauthState: oauth-state.ts.
--   Consultation/Steps: every write on the desk as a step of a relation. Consultation/Agrees, Diagram,
--     Kept, Held, Lapsed, Withdrawn, Reminders, Removal and Calendar/Epoch, Overtaken, Concluded,
--     Roundtrip, Backoff: proofs.
--   Commerce/Steps, Delivery, Settled, Returns, Invoicing, OneOpen, Terminated, Refunded, Reconciled,
--     Mismatch, Charging, Revoked: proofs. Commerce/Examples: examples.
--
-- Conventions. Ids and texts that are only stored and compared are numbers; a time is a number of
-- milliseconds and `now` is an argument; amounts are natural numbers of minor units. A table is the
-- list of its rows as they were created, and a new row's id comes from the store's `next_id`. A
-- transaction returns a `Result`: an error carries no store, as the writes are rolled back. The
-- advisory locks of the code make a transaction one step. Code that commits as it goes is an `Exec`:
-- what was written before an error stays. A request is a parameter that answers and may change the
-- store in any way, as other transactions commit while it waits. Every loop goes over a list, so no
-- fuel is needed.
--
-- A consultation request reads rows, asks Google and then writes in a transaction. The transaction is
-- one step, for the rows that were read; the relation of Consultation/Steps lets any other writes
-- come between the reading and the step. A step that confirms a booking is for a booking whose slot
-- is the one read. A removal of a slot reads and writes outside a transaction, so its step writes by
-- the id alone, whatever is there by then. A job of the calendar worker is one step with the answers of Google in it. The
-- several readings of the clock in one request are one time.
--
-- Parameters: the answers of GoPay and of Google, the encoding and the HMAC of the signed state,
-- the physical switch-off, the year in Prague, the parser of
-- addresses, the two roundings of doubles of calculateAnnualControlOffer, and the tables of users and
-- products. Not modelled: texts of mails, invoice snapshots, hashes (job keys are compared before
-- they are hashed), a lost record or a violated unique index inside an update, the runner's lease
-- callback inside the switch-off, the failure to store GoPay's number of a new payment, and the parts
-- of the program that have no file here (analysis, whose enqueueAnalysis is a parameter, forecasts,
-- wall-clock times of Prague, the rest of the administration, accounts, pages, deployment).
pub mod Common
pub mod Jobs
pub mod Commerce
pub mod Energy
pub mod Security
pub mod Consultation
