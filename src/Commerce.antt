-- ===== src/Commerce.antt =====
-- src/lib/commerce: carts, payments, subscriptions, recurring renewals and their policies.
pub mod Policy
pub mod Model
pub mod Store
pub mod Settle
pub mod Grant
pub mod Finalize
pub mod Returns
pub mod Steps
pub mod Delivery
pub mod Settled
pub mod Invoicing
pub mod Exec
pub mod Carts
pub mod Terminal
pub mod OneOpen
pub mod Examples
pub mod Terminated
pub mod Refunded
pub mod Entitlement
pub mod Gateway
pub mod Checkout
pub mod CheckedOut
pub mod Purchase
pub mod Recovery
pub mod Reconcile
pub mod Reconciled
pub mod Mismatch
pub mod Renewal
pub mod Schedule
pub mod Pricing
pub mod Attempt
pub mod Charging
pub mod Revoked
