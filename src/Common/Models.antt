-- ===== src/Common/Models.antt =====
-- crates/common/src/models.rs: the structs of the payment tables, and the amounts of a payment.
use payment_gateway_in_rust.Prelude.{ℕ, String, Bool, true, false, ◌&&◌, Option, get_or}
use payment_gateway_in_rust.Prelude.Int.{ℤ, pos, ◌-ℤ◌, ltb_ℤ, leb_ℤ, wrap_i64}
use payment_gateway_in_rust.Common.Values.{Uuid, Timestamp, Text, Json}
use payment_gateway_in_rust.Common.Status.{
  Currency, PaymentStatus, CaptureMethod, EntryType, RefundStatus, DisputeStatus, captured, settled,
}

pub data CardBrand : Type 0 where
  visa mastercard amex discover rupay unknown : CardBrand

pub record CardDetails : Type 0 where
  pub token : String
  pub last4 : String
  pub brand : CardBrand
  pub exp_month : ℕ
  pub exp_year : ℕ
  pub name : Option String
  pub country : Option String

pub record UpiDetails : Type 0 where
  pub vpa : String
  pub bank_name : Option String

pub record NetBankingDetails : Type 0 where
  pub bank_code : String
  pub bank_name : String

pub data WalletProvider : Type 0 where
  paytm phone_pe google_pay amazon_pay : WalletProvider

pub data PaymentMethod : Type 0 where
  card : CardDetails → PaymentMethod
  upi : UpiDetails → PaymentMethod
  net_banking : NetBankingDetails → PaymentMethod
  wallet : WalletProvider → PaymentMethod

pub record Payment : Type 0 where
  pub id : Uuid
  pub merchant_id : Uuid
  pub order_id : Option Uuid
  pub amount : ℤ
  pub currency : Currency
  pub status : PaymentStatus
  pub payment_method : Option PaymentMethod
  pub description : Option String
  pub metadata : Json
  pub acquirer_id : Option String
  pub acquirer_reference : Option String
  pub failure_code : Option Text
  pub failure_message : Option Text
  pub capture_method : CaptureMethod
  pub captured_amount : Option ℤ
  pub refunded_amount : ℤ
  pub idempotency_key : Option String
  pub created_at : Timestamp
  pub updated_at : Timestamp
  pub captured_at : Option Timestamp
  pub settled_at : Option Timestamp
  pub expires_at : Option Timestamp

-- `captured_amount.unwrap_or(amount)`, and `COALESCE(captured_amount, amount)` in SQL.
abbrev pub due_amount : Payment → ℤ
due_amount p = get_or p.captured_amount p.amount

-- `Payment::refundable_amount`, on `i64`.
unfoldable pub refundable_amount : Payment → ℤ
refundable_amount p = wrap_i64 (due_amount p -ℤ p.refunded_amount)

-- `matches!(status, Captured | Settled)`.
abbrev pub is_refundable_status : PaymentStatus → Bool
is_refundable_status captured = true
is_refundable_status settled = true
is_refundable_status _ = false

-- `Payment::can_refund`.
unfoldable pub can_refund : Payment → ℤ → Bool
unfolding refundable_amount
can_refund p amount =
    is_refundable_status p.status && (ltb_ℤ (pos 0) amount && leb_ℤ amount (refundable_amount p))

pub record LedgerEntry : Type 0 where
  pub id : Uuid
  pub payment_id : Uuid
  pub merchant_id : Uuid
  pub entry_type : EntryType
  pub account_id : Uuid
  pub reference_entry_id : Option Uuid
  pub amount : ℤ
  pub currency : Currency
  pub balance_before : ℤ
  pub balance_after : ℤ
  pub description : Text
  pub notes : Option String
  pub hash : String
  pub created_at : Timestamp

pub record Refund : Type 0 where
  pub id : Uuid
  pub payment_id : Uuid
  pub merchant_id : Uuid
  pub amount : ℤ
  pub currency : Currency
  pub status : RefundStatus
  pub reason : Option String
  pub acquirer_refund_id : Option String
  pub failure_reason : Option Text
  pub idempotency_key : Option String
  pub created_at : Timestamp
  pub updated_at : Timestamp

pub record OutboxEvent : Type 0 where
  pub id : Uuid
  pub aggregate_type : String
  pub aggregate_id : Uuid
  pub event_type : String
  pub payload : Json
  pub topic : String
  pub published : Bool
  pub failed_attempts : ℕ
  pub last_error : Option Text
  pub created_at : Timestamp
  pub published_at : Option Timestamp

pub record Dispute : Type 0 where
  pub id : Uuid
  pub payment_id : Uuid
  pub merchant_id : Uuid
  pub amount : ℤ
  pub currency : Currency
  pub status : DisputeStatus
  pub reason_code : String
  pub reason_description : Option String
  pub evidence : Option Json
  pub evidence_due_by : Option Timestamp
  pub evidence_submitted_at : Option Timestamp
  pub resolution : Option String
  pub acquirer_dispute_id : Option String
  pub created_at : Timestamp
  pub updated_at : Timestamp
