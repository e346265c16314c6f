-- ===== src/Commerce/Model.antt =====
-- The rows of the payment schema (prisma/schema.prisma) that the commerce code reads and writes.
-- Ids and texts that are only stored and compared are numbers; a time is a number of milliseconds;
-- amounts are in minor units and not negative, as the code that writes them checks.
use spottex_test.Common.{ℕ, Bool, Option, List}

pub data CartStatus : Type 0 where
  open_cart checkout paid_cart abandoned canceled_cart : CartStatus

pub data ProductType : Type 0 where
  subscription one_time : ProductType

pub data Provider : Type 0 where
  mock gopay bank_transfer manual : Provider

pub data PaymentStatus : Type 0 where
  created pending paid failed canceled refunded : PaymentStatus

pub data ChargeKind : Type 0 where
  one_off mandate_first mandate_repeat : ChargeKind

pub data SubscriptionStatus : Type 0 where
  active trial past_due canceled_subscription expired : SubscriptionStatus

pub data SubscriptionSource : Type 0 where
  paid_source promo manual_source : SubscriptionSource

pub data MandateStatus : Type 0 where
  pending_mandate active_mandate revoked expired_mandate failed_mandate : MandateStatus

pub data RenewalStatus : Type 0 where
  scheduled notice_sent charge_pending retry renewed failed_renewal canceled_renewal : RenewalStatus

pub data OfferStatus : Type 0 where
  draft_offer offered accepted expired_offer canceled_offer : OfferStatus

pub data RunStatus : Type 0 where
  draft_run waiting_for_data queued running completed failed_run superseded : RunStatus

pub data RunKind : Type 0 where
  base pro : RunKind

-- What GoPay or this code wrote under `providerPayload.state`.
pub data ProviderState : Type 0 where
  gopay_created gopay_paid gopay_canceled gopay_timeouted gopay_refunded : ProviderState
  gopay_partially_refunded create_uncertain create_failed create_review_required : ProviderState
  other_state : ℕ → ProviderState

-- `providerPaymentId`: GoPay's number, the local payment's id, or `mock-renewal-<id>`.
pub data ProviderId : Type 0 where
  gopay_id local_id mock_renewal_id : ℕ → ProviderId

-- `Number(value)` of a JSON value: an integer in the safe range, or anything else.
pub data JsNumber : Type 0 where
  safe_nonneg : ℕ → JsNumber
  safe_negative : ℕ → JsNumber
  not_safe_integer : JsNumber

pub record Product : Type 0 where
  pub id : ℕ
  pub type : ProductType
  pub billing_period_days : Option ℕ
  -- `Number(metadata.freeTrialDays)`.
  pub free_trial_days : JsNumber

-- A cart item with the row of its product.
pub record CartItem : Type 0 where
  pub product : Product
  pub quantity : ℕ
  pub unit_price_minor : ℕ
  pub product_name : ℕ
  pub analysis_run_id : Option ℕ
  pub service_offer_id : Option ℕ

pub record Cart : Type 0 where
  pub id : ℕ
  pub user_id : ℕ
  pub status : CartStatus
  pub currency : ℕ
  pub total_minor : ℕ
  pub items : List CartItem

-- `providerPayload.recurringConsent` of an accepted consent with its version and digest.
pub record Consent : Type 0 where
  pub accepted : Bool
  pub version : Option ℕ
  pub text_sha256 : Option ℕ
  pub consented_at : Option ℕ
  pub valid_until : Option ℕ
  pub max_amount_minor : ℕ
  pub renewal_period_days : ℕ
  pub notice_days : ℕ

-- `providerPayload`: a JSON object, by the keys that the code reads.
pub record Payload : Type 0 where
  pub free_access : Option Bool
  pub state : Option ProviderState
  pub gateway_url : Option ℕ
  pub recurring_consent : Option Consent
  pub recovery_last_attempt_at : Option ℕ
  pub recovery_verified : Option Bool

pub record Payment : Type 0 where
  pub id : ℕ
  pub user_id : ℕ
  pub cart_id : Option ℕ
  pub provider : Provider
  pub provider_payment_id : Option ProviderId
  pub status : PaymentStatus
  pub amount_minor : ℕ
  pub currency : ℕ
  pub payload : Payload
  pub charge_kind : ChargeKind
  pub mandate_id : Option ℕ
  pub service_offer_id : Option ℕ
  pub renewal_id : Option ℕ
  pub analysis_run_id : Option ℕ
  pub paid_at : Option ℕ
  pub created_at : ℕ
  pub updated_at : ℕ

pub record Subscription : Type 0 where
  pub id : ℕ
  pub user_id : ℕ
  pub product_id : ℕ
  pub payment_id : Option ℕ
  pub status : SubscriptionStatus
  pub source : SubscriptionSource
  pub starts_at : ℕ
  pub ends_at : Option ℕ
  pub canceled_at : Option ℕ
  pub mandate_id : Option ℕ
  pub energy_site_id : Option ℕ

pub record Mandate : Type 0 where
  pub id : ℕ
  pub user_id : ℕ
  pub provider : Provider
  pub parent_payment_id : ProviderId
  pub status : MandateStatus
  pub currency : ℕ
  pub max_amount_minor : ℕ
  pub renewal_period_days : ℕ
  pub notice_days : ℕ
  pub consent_version : ℕ
  pub consent_text_sha256 : ℕ
  pub consented_at : ℕ
  pub valid_until : Option ℕ
  pub last_used_at : Option ℕ
  pub revoked_at : Option ℕ

pub record Renewal : Type 0 where
  pub id : ℕ
  pub user_id : ℕ
  pub mandate_id : ℕ
  pub subscription_id : ℕ
  pub product : Product
  pub product_name : ℕ
  pub energy_site_id : Option ℕ
  pub status : RenewalStatus
  pub amount_minor : ℕ
  pub currency : ℕ
  pub notice_at : ℕ
  pub scheduled_at : ℕ
  pub notice_sent_at : Option ℕ
  pub attempt_count : ℕ
  pub next_attempt_at : Option ℕ
  pub completed_at : Option ℕ
  -- `lastError`, as a code of the message.
  pub last_error : Option ℕ

pub record Offer : Type 0 where
  pub id : ℕ
  pub user_id : ℕ
  pub energy_site_id : ℕ
  pub status : OfferStatus
  pub final_price_minor : ℕ
  pub valid_until : ℕ
  pub accepted_at : Option ℕ
  pub analysis_run_id : Option ℕ
  pub created_at : ℕ

pub record Run : Type 0 where
  pub id : ℕ
  pub user_id : ℕ
  pub kind : RunKind
  pub status : RunStatus
  pub pro_price_minor : ℕ
  -- `engineVersion`.
  pub engine : ℕ

pub record InvoiceItem : Type 0 where
  pub description : ℕ
  pub quantity : ℕ
  pub unit_price_minor : ℕ
  pub total_minor : ℕ

pub record Invoice : Type 0 where
  pub id : ℕ
  -- The year and the sequence that the number is printed from.
  pub year : ℕ
  pub sequence : ℕ
  pub user_id : ℕ
  pub payment_id : ℕ
  pub subtotal_minor : ℕ
  pub total_minor : ℕ
  pub issued_at : ℕ
  pub paid_at : ℕ
  pub items : List InvoiceItem

pub record InvoiceCounter : Type 0 where
  pub year : ℕ
  pub sequence : ℕ
